-- ===== src/Auth/Basic.antt =====
-- Password logins: the header that a client builds from a name and a password is accepted exactly
-- for the configured pair.
use node_debug_dashboard.Prelude.{
  ℕ, ◌≡◌, ◌↔◌, ◌≢◌, refl, ap, ◌∙◌, true, false, [], ◌∷◌, ◌++◌, arith, ◌&&◌, &&_true, Text, lit,
  text_eq_iff, text_eq_refl, is_empty, is_space, lower_char, All, All-append, inl, if◌then◌else◌,
  some, cut, ◌==◌,
}
use node_debug_dashboard.Config.{AuthConfig}
use node_debug_dashboard.Encoding.{Bytes, utf8, utf8_char, utf8_from}
use node_debug_dashboard.Encoding.Utf8.{
  IsScalar, IsUnicode, utf8_decode-utf8, utf8_injective, utf8-lt,
}
use node_debug_dashboard.Encoding.Base64.{
  b64encode, b64decode-b64encode, IsPrintable, b64encode-IsPrintable,
}
use node_debug_dashboard.Auth.{same, split_scheme, check_login, decode_login, check_basic}
use node_debug_dashboard.Auth.Scheme.{IsWordChar, split_scheme-append, rstrip-words}

-- The pair as HTTP Basic writes it.
abbrev pub login : Text → Text → Text
login username password = username ++ b':' ∷ password

-- `Authorization: Basic <base64 of the UTF-8 of username:password>`
abbrev pub basic_header : Text → Text → Text
basic_header username password = lit "Basic" ++ b' ' ∷ b64encode (utf8 (login username password))

abbrev pub IsNoColon : Text → Type 0
IsNoColon s = All (λ c. (c == b':') ≡ false) s

cut-login : (u p : Text) → IsNoColon u → cut b':' (login u p) ≡ (u, some p)
unfolding cut
cut-login [] p h = refl
cut-login (c ∷ u) p h = rw (h.0) (rw (cut-login u p h.1))

same_iff : (s t : Text) → IsUnicode s → IsUnicode t → (same s t ≡ true) ↔ (s ≡ t)
unfolding same
same_iff s t hs ht = (
  λ e. utf8_injective s t hs ht ((text_eq_iff (utf8 s) (utf8 t)).0 e),
  λ p. rw p (text_eq_refl (utf8 t)),
)

login-IsUnicode : (u p : Text) → IsUnicode u → IsUnicode p → IsUnicode (login u p)
login-IsUnicode u p hu hp = All-append IsScalar u (b':' ∷ p) hu (inl (omega arith), hp)

decode_login-header :
    (u p : Text)
    → IsUnicode u
    → IsUnicode p
    → decode_login (b64encode (utf8 (login u p))) ≡ some (login u p)
unfolding decode_login mathlib.Core.Option.bind utf8_from
decode_login-header u p hu hp =
    let h = login-IsUnicode u p hu hp in
    rw (b64decode-b64encode (utf8 (login u p)) (utf8-lt (login u p) h))
      (utf8_decode-utf8 (login u p) h)

IsWordChar-printable : (c : ℕ) → IsPrintable c → IsWordChar c
unfolding is_space
IsWordChar-printable c h = ground arith

words-printable : (s : Text) → All IsPrintable s → All IsWordChar s
words-printable [] h = tt
words-printable (c ∷ s) h = (IsWordChar-printable c h.0, words-printable s h.1)

split-basic_header :
    (s : Text)
    → All IsPrintable s
    → is_empty s ≡ false
    → split_scheme (lit "Basic" ++ b' ' ∷ s) ≡ (lit "basic", s)
unfolding lit lower_char is_space
split-basic_header [] h full = cc
split-basic_header (d ∷ u) h full =
    split_scheme-append b'B' (lit "asic") d u (refl, (refl, (refl, (refl, (refl, tt)))))
      (IsWordChar-printable d h.0)
    ∙ ap (λ r. (lit "basic", d ∷ r)) (rstrip-words u (words-printable u h.1))

encoded_full : (s : Text) → is_empty (b64encode (utf8 s)) ≡ is_empty (utf8 s)
unfolding b64encode
encoded_full s = by_bytes (utf8 s)
  where
    by_bytes : (bs : Bytes) → is_empty (b64encode bs) ≡ is_empty bs
    by_bytes [] = refl
    by_bytes (a ∷ []) = refl
    by_bytes (a ∷ b ∷ []) = refl
    by_bytes (a ∷ b ∷ c ∷ rest) = refl

utf8-login_full : (u p : Text) → is_empty (utf8 (login u p)) ≡ false
unfolding utf8 utf8_char
utf8-login_full [] p = refl
utf8-login_full (c ∷ u) p = char_full c (utf8 (login u p))
  where
    char_full : (c : ℕ) (s : Bytes) → is_empty (utf8_char c ++ s) ≡ false
    char_full c s = ground arith

check_basic-header :
    (cfg : AuthConfig) (u p : Text)
    → IsUnicode u
    → IsUnicode p
    → IsNoColon u
    → check_basic cfg (basic_header u p) ≡ (
        if is_empty cfg.auth_password
        then false
        else same u cfg.auth_username && same p cfg.auth_password)
unfolding check_basic check_login
check_basic-header cfg u p hu hp hc =
    let h = login-IsUnicode u p hu hp in
    let encoded = b64encode (utf8 (login u p)) in
    rw
      (split-basic_header encoded (b64encode-IsPrintable (utf8 (login u p)) (utf8-lt (login u p) h))
        (encoded_full (login u p) ∙ utf8-login_full u p))
      (rw (decode_login-header u p hu hp)
        (rw (cut-login u p hc) (rw (text_eq_refl (lit "basic")) (ground arith))))

-- The header that a client makes of a name and a password is accepted exactly if a password is
-- configured, and the name and the password are the configured ones. All four are Unicode text,
-- and the name has no colon.
pub check_basic_iff :
    (cfg : AuthConfig) (u p : Text)
    → IsUnicode cfg.auth_username
    → IsUnicode cfg.auth_password
    → IsUnicode u
    → IsUnicode p
    → IsNoColon u
    → (check_basic cfg (basic_header u p) ≡ true)
      ↔ ((cfg.auth_password ≢ []) × (u ≡ cfg.auth_username) × (p ≡ cfg.auth_password))
check_basic_iff cfg u p hn hw hu hp hc =
    rw (check_basic-header cfg u p hu hp hc) (iff_lem cfg.auth_password hw)
  where
    iff_lem :
        (w : Text)
        → IsUnicode w
        → ((if is_empty w then false else same u cfg.auth_username && same p w) ≡ true)
          ↔ ((w ≢ []) × (u ≡ cfg.auth_username) × (p ≡ w))
    iff_lem [] hw = (λ e. cc, λ e. absurd (e.0 refl))
    iff_lem (c ∷ w) hw = (
      λ e.
          let both = &&_true (same u cfg.auth_username) (same p (c ∷ w)) e in
          (
            (λ x. cc),
            (same_iff u cfg.auth_username hu hn).0 both.0,
            (same_iff p (c ∷ w) hp hw).0 both.1,
          ),
      λ e. rw ((same_iff u cfg.auth_username hu hn).1 e.1) ((same_iff p (c ∷ w) hp hw).1 e.2),
    )
