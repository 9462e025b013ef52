-- ===== src/Warnings/Failures.antt =====
-- Which names the warnings endpoint reports as failed.
use mathlib.Core.List.{append-nil}
use node_debug_dashboard.Prelude.{
  ◌≡◌, refl, ap, ◌∙◌, Option, none, some, List, [], ◌∷◌, ◌++◌, concat_map, Text, lit, sym, Bool,
  true, false, not, any, is_some, text_eq,
}
use node_debug_dashboard.Warnings.{Gathered, failed_names, talos_owns_pki, ended, collectors}
use node_debug_dashboard.Degrade.{Outcome}
use node_debug_dashboard.Degrade.Sections.{name_if_raised, NoneCancelled, gather_sections-isolates}

-- The name of a section that is missing.
abbrev pub name_if_missing : {A : Type 0} → Text → Option A → List Text
name_if_missing name none = name ∷ []
name_if_missing name (some _) = []

-- The names of those that raised.
record HasNames (rs : List (Text × Outcome (Unit {0}))) (names : List Text) : Type 0 where
  names_eq : concat_map name_if_raised rs ≡ names

HasNames-cons :
    {A : Type 0} (name : Text) (o : Option A) (rs : List (Text × Outcome (Unit {0})))
    (names : List Text)
    → HasNames rs names
    → HasNames ((name, ended o) ∷ rs) (name_if_missing name o ++ names)
HasNames-cons name none rs names h = record { names_eq = ap (λ l. name ∷ l) h.names_eq }
HasNames-cons name (some a) rs names h = record { names_eq = h.names_eq }

HasNames-last :
    {A : Type 0} (name : Text) (o : Option A)
    → HasNames ((name, ended o) ∷ []) (name_if_missing name o)
HasNames-last name none = record { names_eq = refl }
HasNames-last name (some a) = record { names_eq = refl }

uncancelled :
    {A : Type 0} (name : Text) (o : Option A) (rs : List (Text × Outcome (Unit {0})))
    → NoneCancelled rs
    → NoneCancelled ((name, ended o) ∷ rs)
uncancelled name none rs h = h
uncancelled name (some a) rs h = h

-- The names that `gather_sections` gives back to the warnings endpoint as failed are those of the
-- missing sections, in the order of the call.
pub failed_names-missing :
    (r : Gathered)
    → failed_names r
      ≡ name_if_missing (lit "dmesg") r.dmesg
        ++ (name_if_missing (lit "smart") r.smart
            ++ (name_if_missing (lit "sensors") r.sensors
                ++ (name_if_missing (lit "memory") r.memory
                    ++ (name_if_missing (lit "nics") r.nics
                        ++ (name_if_missing (lit "disk_usage") r.disk_usage
                            ++ (name_if_missing (lit "k8s_certs") r.k8s_certs
                                ++ (name_if_missing (lit "talos_certs") r.talos_certs
                                    ++ (name_if_missing (lit "components") r.components
                                        ++ (name_if_missing (lit "k8s_node") r.k8s_node)))))))))
unfolding failed_names
failed_names-missing r =
    let ran : NoneCancelled (collectors r) =
      (uncancelled (lit "dmesg") r.dmesg _ (
        uncancelled (lit "smart") r.smart _ (
          uncancelled (lit "sensors") r.sensors _ (
            uncancelled (lit "memory") r.memory _ (
              uncancelled (lit "nics") r.nics _ (
                uncancelled (lit "disk_usage") r.disk_usage _ (
                  uncancelled (lit "k8s_certs") r.k8s_certs _ (
                    uncancelled (lit "talos_certs") r.talos_certs _ (
                      uncancelled (lit "components") r.components _
                        (uncancelled (lit "k8s_node") r.k8s_node _ (λ e. e))))))))))) in
    let (out, done, values) = (gather_sections-isolates (collectors r)).0 ran in
    let names =
      (HasNames-cons (lit "dmesg") r.dmesg _ _ (
        HasNames-cons (lit "smart") r.smart _ _ (
          HasNames-cons (lit "sensors") r.sensors _ _ (
            HasNames-cons (lit "memory") r.memory _ _ (
              HasNames-cons (lit "nics") r.nics _ _ (
                HasNames-cons (lit "disk_usage") r.disk_usage _ _ (
                  HasNames-cons (lit "k8s_certs") r.k8s_certs _ _ (
                    HasNames-cons (lit "talos_certs") r.talos_certs _ _ (
                      HasNames-cons (lit "components") r.components _ _
                        (HasNames-last (lit "k8s_node") r.k8s_node)))))))))) in
    rw (done, failed_names) names.names_eq

module _ (wanted : Text) where
  any-other :
      {A : Type 0} (name : Text) (o : Option A) (rest : List Text)
      → text_eq wanted name ≡ false
      → any (text_eq wanted) (name_if_missing name o ++ rest) ≡ any (text_eq wanted) rest
  any-other name none rest other = rw other refl
  any-other name (some a) rest other = refl

-- The Talos collector is among the failed ones exactly if its section is missing.
pub talos_owns_pki-is_some : (r : Gathered) → talos_owns_pki r ≡ is_some r.talos_certs
unfolding talos_owns_pki lit text_eq
talos_owns_pki-is_some r =
    let wanted = lit "talos_certs" in
    let rest : any (text_eq wanted) (failed_names r) ≡ not (is_some r.talos_certs) =
      ap (any (text_eq wanted)) (failed_names-missing r)
      ∙ any-other wanted (lit "dmesg") r.dmesg _ refl
      ∙ any-other wanted (lit "smart") r.smart _ refl
      ∙ any-other wanted (lit "sensors") r.sensors _ refl
      ∙ any-other wanted (lit "memory") r.memory _ refl
      ∙ any-other wanted (lit "nics") r.nics _ refl
      ∙ any-other wanted (lit "disk_usage") r.disk_usage _ refl
      ∙ any-other wanted (lit "k8s_certs") r.k8s_certs _ refl
      ∙ last r.talos_certs in
    ap not rest ∙ twice (is_some r.talos_certs)
  where
    after : List Text
    after =
        name_if_missing (lit "components") r.components
        ++ name_if_missing (lit "k8s_node") r.k8s_node

    nothing_more : any (text_eq (lit "talos_certs")) after ≡ false
    nothing_more =
        any-other (lit "talos_certs") (lit "components") r.components _ refl
        ∙ ap (any (text_eq (lit "talos_certs")))
            (sym (append-nil (name_if_missing (lit "k8s_node") r.k8s_node)))
        ∙ any-other (lit "talos_certs") (lit "k8s_node") r.k8s_node [] refl

    last :
        {A : Type 0} (o : Option A)
        → any (text_eq (lit "talos_certs")) (name_if_missing (lit "talos_certs") o ++ after)
          ≡ not (is_some o)
    last none = refl
    last (some a) = nothing_more

    twice : (b : Bool) → not (not b) ≡ b
    twice true = refl
    twice false = refl
