-- ===== src/Auth/Bearer.antt =====
-- Token logins: exactly the configured token is accepted, once white space at the end of the header
-- is gone. The bytes 0x85 and 0xA0 count as white space there, and UTF-8 text may end in them.
use node_debug_dashboard.Prelude.{
  ℕ, ◌<◌, ◌≡◌, ◌↔◌, ◌≢◌, refl, ◌∙◌, true, false, [], ◌∷◌, ◌++◌, arith, ltb, all, Text, lit, text_eq,
  text_eq_iff, text_eq_refl, is_empty, is_space, rstrip, lower_char, All, Bool-cases, inl, inr,
  if◌then◌else◌,
}
use node_debug_dashboard.Config.{AuthConfig}
use node_debug_dashboard.Encoding.{Bytes, utf8, latin1}
use node_debug_dashboard.Auth.{split_scheme, raw_bytes, check_bearer}
use node_debug_dashboard.Auth.Scheme.{
  IsWordChar, split_scheme-append, All-split_scheme, All-rstrip, rstrip-split_scheme,
  concat_space-ne_rstrip,
}

abbrev pub IsByte : ℕ → Type 0
IsByte b = b < 256

all_bytes : (s : Bytes) → All IsByte s → all (λ c. ltb c 256) s ≡ true
all_bytes [] h = refl
all_bytes (c ∷ s) h = ground (arith, all_bytes s h.1)

-- The bytes that the client sent are recovered.
raw_bytes_lem : (s : Bytes) → All IsByte s → raw_bytes s ≡ s
unfolding raw_bytes latin1
raw_bytes_lem s h = rw (all_bytes s h)

-- `Authorization: Bearer <credentials>`, as the client sends it.
abbrev pub bearer_header : Bytes → Text
bearer_header credentials = lit "Bearer" ++ b' ' ∷ credentials

split-bearer_header :
    (d : ℕ) (u : Bytes)
    → IsWordChar d
    → split_scheme (bearer_header (d ∷ u)) ≡ (lit "bearer", d ∷ rstrip u)
unfolding lit lower_char is_space
split-bearer_header d u h =
    split_scheme-append b'B' (lit "earer") d u (refl, (refl, (refl, (refl, (refl, (refl, tt)))))) h

check_bearer-header :
    (cfg : AuthConfig) (d : ℕ) (u : Bytes)
    → All IsByte (d ∷ rstrip u)
    → IsWordChar d
    → check_bearer cfg (bearer_header (d ∷ u))
      ≡ (if is_empty cfg.auth_token then false else text_eq (d ∷ rstrip u) (utf8 cfg.auth_token))
unfolding check_bearer
check_bearer-header cfg d u b h =
    rw (split-bearer_header d u h)
      (rw (raw_bytes_lem (d ∷ rstrip u) b) (rw (text_eq_refl (lit "bearer")) (ground arith)))

-- The header that a client makes of its credentials, bytes of which the first is no white space,
-- is accepted exactly if a token is configured and the credentials, less the white space at their
-- end, are its UTF-8 bytes.
pub check_bearer_iff :
    (cfg : AuthConfig) (d : ℕ) (u : Bytes)
    → All IsByte (d ∷ u)
    → IsWordChar d
    → (check_bearer cfg (bearer_header (d ∷ u)) ≡ true)
      ↔ ((cfg.auth_token ≢ []) × (d ∷ rstrip u ≡ utf8 cfg.auth_token))
check_bearer_iff cfg d u b h =
    rw (check_bearer-header cfg d u (b.0, All-rstrip IsByte u b.1) h) (iff_lem cfg.auth_token)
  where
    iff_lem :
        (t : Text)
        → ((if is_empty t then false else text_eq (d ∷ rstrip u) (utf8 t)) ≡ true)
          ↔ ((t ≢ []) × (d ∷ rstrip u ≡ utf8 t))
    iff_lem [] = (λ e. cc, λ e. absurd (e.0 refl))
    iff_lem (c ∷ t) = (
      λ e. ((λ x. cc), (text_eq_iff (d ∷ rstrip u) (utf8 (c ∷ t))).0 e),
      λ e. (text_eq_iff (d ∷ rstrip u) (utf8 (c ∷ t))).1 e.1,
    )

-- With a token whose UTF-8 ends in a byte that Python takes for white space, every header, a text
-- of bytes, is refused as a token, the right one too.
pub bearer_locked_out :
    (cfg : AuthConfig) (start : Bytes) (w : ℕ) (header : Bytes)
    → utf8 cfg.auth_token ≡ start ++ w ∷ []
    → is_space w ≡ true
    → All IsByte header
    → check_bearer cfg header ≡ false
unfolding check_bearer
bearer_locked_out cfg start w header e sp b =
    let token = (split_scheme header).1 in
    let bytes : raw_bytes token ≡ token = raw_bytes_lem token (All-split_scheme IsByte header b) in
    let other : token ≢ utf8 cfg.auth_token =
      λ p. concat_space-ne_rstrip start token w sp (rstrip-split_scheme header) (p ∙ e) in
    elim (Bool-cases (text_eq token (utf8 cfg.auth_token))) [
      | inl same ↦ absurd (other ((text_eq_iff token (utf8 cfg.auth_token)).0 same))
      | inr differ ↦ rw (bytes) (rw differ (ground arith))
    ]
