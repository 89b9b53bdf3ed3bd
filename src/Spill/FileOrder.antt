-- ===== src/Spill/FileOrder.antt =====
-- The order in which requests to disjoint places complete.
use dshuffle.Prelude.{
  ℕ, ◌+◌, ◌-◌, ◌≤◌, ◌≡◌, refl, sym, ap, ap₂, ◌∙◌, fun_ext, true, false, Bool, Bool-cases, ltb, leb,
  ◌==◌, ◌&&◌, inl, inr, ◌⊎◌, ◌≢◌, if◌then◌else◌, List, [], ◌∷◌, length, All, arith, ℕ_discrete,
  get_or, subst,
}
use dshuffle.Spill.Files.{Request, Disk, perform, perform_all}
use mathlib.Core.List.{Permᴰ}

-- Two requests touch no common byte.
abbrev pub Disjoint : Request → Request → Type 0
Disjoint r q = (r.fd ≢ q.fd) ⊎ (r.at + length r.bytes ≤ q.at) ⊎ (q.at + length q.bytes ≤ r.at)

abbrev pub Apart : List Request → Type 0
Apart [] = Unit
Apart (r ∷ rs) = All (Disjoint r) rs × Apart rs

Disjoint-sym : (r q : Request) → Disjoint r q → Disjoint q r
Disjoint-sym r q (inl h) = inl (λ e. h (sym e))
Disjoint-sym r q (inr (inl h)) = inr (inr h)
Disjoint-sym r q (inr (inr h)) = inr (inl h)

All-Perm :
    (r : Request) {qs rs : List Request} → Permᴰ qs rs → All (Disjoint r) qs → All (Disjoint r) rs
All-Perm r Permᴰ.nil h = h
All-Perm r (Permᴰ.cons e p) h = (subst (Disjoint r) e h.0, All-Perm r p h.1)
All-Perm r (Permᴰ.swap e e') h = (subst (Disjoint r) e' h.1.0, (subst (Disjoint r) e h.0, h.1.1))
All-Perm r (Permᴰ.trans p q) h = All-Perm r q (All-Perm r p h)

Apart-Perm : {qs rs : List Request} → Permᴰ qs rs → Apart qs → Apart rs
Apart-Perm Permᴰ.nil h = h
Apart-Perm (Permᴰ.cons {a} {b} {l₁} {l₂} e p) h =
    (All-Perm b p (subst (λ r. All (Disjoint r) l₁) e h.0), Apart-Perm p h.1)
Apart-Perm (Permᴰ.swap {a} {b} {a'} {b'} {l} e e') h = (
  (
    Disjoint-sym b' a' (subst (λ q. Disjoint b' q) e' (subst (λ r. Disjoint r b) e h.0.0)),
    subst (λ r. All (Disjoint r) l) e' h.1.0,
  ),
  (subst (λ r. All (Disjoint r) l) e h.0.1, h.1.1),
)
Apart-Perm (Permᴰ.trans p q) h = Apart-Perm q (Apart-Perm p h)

-- The byte at one place after a request.
abbrev pub covers : Request → ℕ → ℕ → Bool
covers r fd a = (r.fd == fd) && (leb r.at a && ltb a (r.at + length r.bytes))

abbrev pub stored : Request → ℕ → ℕ
stored r a = get_or r.bytes (a - r.at) 0

pub perform-at :
    (r : Request) (disk : Disk) (fd a : ℕ)
    → perform r disk fd a ≡ (if covers r fd a then stored r a else disk fd a)
perform-at r disk fd a = elim (ℕ_discrete r.fd fd) [
  | yes same ↦
      let here : (r.fd == fd) ≡ true = ground arith in
      rw here (
        ap (λ k. if leb r.at a && ltb a (r.at + length r.bytes) then stored r a else disk k a) same)
  | no other ↦ let elsewhere : (r.fd == fd) ≡ false = ground arith in rw elsewhere
]

perform_comm :
    (r q : Request) (disk : Disk)
    → Disjoint r q
    → perform q (perform r disk) ≡ perform r (perform q disk)
perform_comm r q disk apart = fun_ext (λ fd. fun_ext (λ a. cell fd a))
  where
    never : (fd a : ℕ) → covers r fd a ≡ true → covers q fd a ≡ true → ⊥
    never fd a h h' = ground arith

    cell : (fd a : ℕ) → perform q (perform r disk) fd a ≡ perform r (perform q disk) fd a
    cell fd a =
        perform-at q (perform r disk) fd a
        ∙ ap (λ x. if covers q fd a then stored q a else x) (perform-at r disk fd a)
        ∙ elim (Bool-cases (covers r fd a)) [
          | inl t ↦ elim (Bool-cases (covers q fd a)) [
            | inl t' ↦ absurd (never fd a t t')
            | inr f' ↦ rw (f', t) refl
          ]
          | inr f ↦ rw f refl
        ]
        ∙ ap (λ x. if covers r fd a then stored r a else x) (sym (perform-at q disk fd a))
        ∙ sym (perform-at r (perform q disk) fd a)

pub perform_all-Perm :
    {qs rs : List Request} (disk : Disk)
    → Permᴰ qs rs
    → Apart qs
    → perform_all qs disk ≡ perform_all rs disk
perform_all-Perm disk Permᴰ.nil h = refl
perform_all-Perm disk (Permᴰ.cons {a} {b} {l₁} {l₂} e p) h =
    perform_all-Perm (perform a disk) p h.1 ∙ ap (λ r. perform_all l₂ (perform r disk)) e
perform_all-Perm disk (Permᴰ.swap {a} {b} {a'} {b'} {l} e e') h =
    ap (perform_all l) (perform_comm a b disk h.0.0 ∙ ap₂ (λ r q. perform r (perform q disk)) e e')
perform_all-Perm disk (Permᴰ.trans p q) h =
    perform_all-Perm disk p h ∙ perform_all-Perm disk q (Apart-Perm p h)
