-- ===== src/Apps/Tenants/Hosts.antt =====
-- apps/tenants/middleware.py, `_resolve_tenant`: which host names which tenant.
use mathlib.Core.Option.{some-injective, none-ne-some}
use payroll_software.Base.{
  ℕ, Bool, true, false, ◌&&◌, ◌||◌, not, none, some, List, [], ◌∷◌, ◌++◌, map, ◌<◌, ◌≡◌, refl, sym,
  ap, ◌∙◌, subst, ◌==◌, any, arith, length, length-append, if◌then◌else◌, Bool-cases, Option-cases,
  inl, inr, leb,
}
use payroll_software.Base.Text.{Text, text_eq, text_eq→eq, text_eq_refl}
use payroll_software.Database.{Company}
use payroll_software.Apps.Tenants.{
  lower, before_colon, without_suffix, company_by_slug, resolve_tenant,
}

-- SUBDOMAIN_VALIDATOR of apps/tenants/models.py: 1 to 63 characters of a-z, 0-9 and hyphen, neither
-- beginning nor ending with a hyphen.
unfoldable pub is_label_char : ℕ → Bool
is_label_char c = (leb b'a' c && leb c b'z' || leb b'0' c && leb c b'9') || c == b'-'

abbrev last_is : ℕ → Text → Bool
last_is k [] = false
last_is k (c ∷ []) = c == k
last_is k (c ∷ (d ∷ s)) = last_is k (d ∷ s)

abbrev every : (ℕ → Bool) → Text → Bool
every p [] = true
every p (c ∷ s) = p c && every p s

unfoldable pub valid_slug : Text → Bool
unfolding is_label_char
valid_slug [] = false
valid_slug (c ∷ s) =
    (leb (length (c ∷ s)) 63 && every is_label_char (c ∷ s))
    && (not (c == b'-') && not (last_is b'-' (c ∷ s)))

no_dot : (s : Text) → every is_label_char s ≡ true → any (λ c. c == b'.') s ≡ false
unfolding is_label_char
no_dot [] h = refl
no_dot (c ∷ s) h = ground (arith, no_dot s)

valid_slug-every :
    (c : ℕ) (s : Text) → valid_slug (c ∷ s) ≡ true → every is_label_char (c ∷ s) ≡ true
unfolding valid_slug
valid_slug-every c s v = ground arith

longer_ne : (s t : Text) → length t < length s → text_eq s t ≡ false
longer_ne s t longer = elim (Bool-cases (text_eq s t)) [
  | inr h ↦ h
  | inl h ↦ absurd (omega (arith, ap length (text_eq→eq s t h)))
]

without_suffix-append : (s t : Text) → without_suffix t (s ++ t) ≡ some s
unfolding without_suffix
without_suffix-append [] [] = rw (text_eq_refl [])
without_suffix-append [] (c ∷ t) = rw (text_eq_refl (c ∷ t))
without_suffix-append (c ∷ s) t =
    rw (longer_ne (c ∷ (s ++ t)) t (omega (arith, length-append s t)), without_suffix-append s t)

without_suffix_sound : (t h s : Text) → without_suffix t h ≡ some s → h ≡ s ++ t
unfolding without_suffix
without_suffix_sound t [] s e = ground (arith, text_eq→eq [] t)
without_suffix_sound t (c ∷ h) s e = elim (Option-cases (without_suffix t h)) [
  | inl shorter ↦ ground (arith, text_eq→eq (c ∷ h) t)
  | inr (s', shorter) ↦ ground (arith, text_eq→eq (c ∷ h) t, without_suffix_sound t h s' shorter)
]

-- The host name that the rules are about: without the port, in lower case.
abbrev pub normal : Text → Text
normal host = map lower (before_colon host)

-- A host that is a valid slug, a dot and the base domain resolves to the active company with that
-- slug, if there is one, whatever the letters' case and the port.
pub resolve_tenant-slug :
    (host base slug : Text) (companies : List Company)
    → valid_slug slug ≡ true
    → normal host ≡ slug ++ (b'.' ∷ normal base)
    → resolve_tenant host base companies ≡ company_by_slug slug companies
unfolding resolve_tenant
resolve_tenant-slug host base [] companies v e = unfold valid_slug in cc
resolve_tenant-slug host base (c ∷ s) companies v e =
    let suffix = b'.' ∷ normal base in
    rw (
      e,
      longer_ne ((c ∷ s) ++ suffix) (normal base) (omega (arith, length-append s suffix)),
      without_suffix-append (c ∷ s) suffix,
      longer_ne (c ∷ s) [] (omega arith),
      no_dot (c ∷ s) (valid_slug-every c s v),
    )

found-active :
    (slug : Text) (companies : List Company) {c : Company}
    → company_by_slug slug companies ≡ some c
    → (c.slug ≡ slug) × (c.is_active ≡ true)
found-active slug [] e = cc
found-active slug (d ∷ companies) e = elim (Bool-cases (text_eq d.slug slug && d.is_active)) [
  | inl h ↦
      subst (λ x. (x.slug ≡ slug) × (x.is_active ≡ true)) (some-injective _ _ (rw h at e))
        (text_eq→eq d.slug slug (ground arith), ground arith)
  | inr h ↦ found-active slug companies (rw h at e)
]

-- The branch for a host that ends in the base domain.
looked_up :
    (host base : Text) (companies : List Company) (slug : Text) {c : Company}
    → normal host ≡ slug ++ (b'.' ∷ normal base)
    → (if text_eq slug [] || any (λ d. d == b'.') slug
        then none
        else company_by_slug slug companies)
      ≡ some c
    → (normal host ≡ c.slug ++ (b'.' ∷ normal base))
      × (c.is_active ≡ true)
      × (any (λ d. d == b'.') c.slug ≡ false)
looked_up host base companies slug {c} e h =
    elim (Bool-cases (text_eq slug [] || any (λ d. d == b'.') slug)) [
      | inl bad ↦ absurd (none-ne-some c (rw bad at h))
      | inr good ↦
          let (same, active) = found-active slug companies (rw good at h) in
          (
            e ∙ ap (λ (t : Text). t ++ (b'.' ∷ normal base)) (sym same),
            active,
            rw same (ground arith),
          )
    ]

-- A tenant that a host resolves to is active, and the host is its slug, without a dot, in front of
-- a dot and the base domain.
pub resolve_tenant_sound :
    (host base : Text) (companies : List Company) {c : Company}
    → resolve_tenant host base companies ≡ some c
    → (normal host ≡ c.slug ++ (b'.' ∷ normal base))
      × (c.is_active ≡ true)
      × (any (λ d. d == b'.') c.slug ≡ false)
unfolding resolve_tenant
resolve_tenant_sound host base companies {c} h =
    elim (Bool-cases (text_eq (normal host) (normal base))) [
      | inl bare ↦ absurd (none-ne-some c (rw bare at h))
      | inr sub ↦ elim (Option-cases (without_suffix (b'.' ∷ normal base) (normal host))) [
        | inl n ↦ absurd (none-ne-some c (rw (sub, n) at h))
        | inr (slug, n) ↦
            looked_up host base companies slug
              (without_suffix_sound (b'.' ∷ normal base) (normal host) slug n) (rw (sub, n) at h)
      ]
    ]
