-- ===== src/Application/Dirs.antt =====
-- MakeDir of include/Application.hpp makes the directories of a path.
use mathlib.Core.List.{append_assoc}
use libsimplesvr.Base.{
  ℕ, ◌≡◌, ◌⊎◌, inl, inr, refl, sym, ap, ◌∙◌, Bool, true, false, none, some, List, [], ◌∷◌, ◌++◌,
  ◌==◌, if◌then◌else◌, arith, Bool-cases, Option-cases, append_nil,
}
use libsimplesvr.Configure.{Text, is_empty}
use libsimplesvr.Application.{Disk, ends_with_slash, make_dirs, make_dir}

-- mkdir makes the directory, where it succeeds, and removes none.
pub record IsDisk {D : Type 0} (disk : Disk D) : Type 0 where
  pub makes : (p : Text) (d d' : D) → disk.mkdir p d ≡ some d' → disk.exists d' p ≡ true
  pub keeps :
      (p : Text) (d d' : D)
      → disk.mkdir p d ≡ some d'
      → (q : Text) → disk.exists d q ≡ true
      → disk.exists d' q ≡ true

-- The path with a slash at its end.
abbrev pub slashed : ℕ → Text → Text
slashed c cs = if ends_with_slash c cs then cs else cs ++ (47 ∷ [])

-- Every part of a path up to a slash exists, or one does not exist and mkdir fails for it.
abbrev pub Outcome : {D : Type 0} → Disk D → Text → Text → Bool × D → Type 0
Outcome disk before rest r =
    ((r.0 ≡ true) × ((a b : Text) → rest ≡ a ++ (47 ∷ b) → disk.exists r.1 (before ++ a) ≡ true))
    ⊎ ((r.0 ≡ false)
        × (a : Text) × (b : Text) × (rest ≡ a ++ (47 ∷ b))
        × (disk.exists r.1 (before ++ a) ≡ false)
        × (disk.mkdir (before ++ a) r.1 ≡ none))

-- What existed does.
abbrev pub Made : {D : Type 0} → Disk D → Text → Text → D → Bool × D → Type 0
Made disk before rest d r =
    Outcome disk before rest r × ((q : Text) → disk.exists d q ≡ true → disk.exists r.1 q ≡ true)

head_of : List ℕ → ℕ
head_of [] = 0
head_of (c ∷ cs) = c

tail_of : Text → Text
tail_of [] = []
tail_of (c ∷ cs) = cs

no_end : (a b : Text) → [] ≡ a ++ (47 ∷ b) → ⊥
unfolding is_empty
no_end [] b e = ground (arith, ap is_empty e)
no_end (x ∷ a) b e = ground (arith, ap is_empty e)

module _ {D : Type 0} (disk : Disk D) (laws : IsDisk disk) where
  -- One character further.
  further :
      (before : Text) (c : ℕ) (cs : Text) (d d' : D) (r : Bool × D)
      → ((c ≡ 47) → disk.exists d' before ≡ true)
      → ((q : Text) → disk.exists d q ≡ true → disk.exists d' q ≡ true)
      → Made disk (before ++ (c ∷ [])) cs d' r
      → Made disk before (c ∷ cs) d r
  unfolding head_of tail_of
  further before c cs d d' r here keep (h, k) = (side h, (λ q e. k q (keep q e)))
    where
      moved : (a : Text) → (before ++ (c ∷ [])) ++ a ≡ before ++ (c ∷ a)
      moved a = append_assoc before (c ∷ []) a

      part :
          ((a b : Text) → cs ≡ a ++ (47 ∷ b) → disk.exists r.1 ((before ++ (c ∷ [])) ++ a) ≡ true)
          → (a b : Text) → c ∷ cs ≡ a ++ (47 ∷ b)
          → disk.exists r.1 (before ++ a) ≡ true
      part all [] b e = ap (disk.exists r.1) (append_nil before) ∙ k before (here (ap head_of e))
      part all (x ∷ a) b e =
          ap (λ y. disk.exists r.1 (before ++ (y ∷ a))) (sym (ap head_of e))
          ∙ ap (disk.exists r.1) (sym (moved a))
          ∙ all a b (ap tail_of e)

      side : Outcome disk (before ++ (c ∷ [])) cs r → Outcome disk before (c ∷ cs) r
      side (inl (t, all)) = inl (t, part all)
      side (inr (t, a, b, e, n, m)) = inr (
        t,
        c ∷ a,
        b,
        ap (◌∷◌ c) e,
        ap (disk.exists r.1) (sym (moved a)) ∙ n,
        ap (λ p. disk.mkdir p r.1) (sym (moved a)) ∙ m,
      )

  make_dirs-Made :
      (before rest : Text) (d : D) → Made disk before rest d (make_dirs disk before rest d)
  unfolding make_dirs
  make_dirs-Made before [] d = (inl (refl, (λ a b e. absurd (no_end a b e))), (λ q e. e))
  make_dirs-Made before (c ∷ cs) d = elim (Bool-cases (c == 47)) [
    | inl t ↦ elim (Bool-cases (disk.exists d before)) [
      | inl h ↦
          rw (t, h)
            (further before c cs d d _ (λ e. h) (λ q e. e)
              (make_dirs-Made (before ++ (c ∷ [])) cs d))
      | inr h ↦ elim (Option-cases (disk.mkdir before d)) [
        | inl m ↦
            rw (t, h, m)
              (
                inr (
                  refl,
                  [],
                  cs,
                  ap (λ x. x ∷ cs) (let e : c ≡ 47 = ground (arith, t) in e),
                  ap (disk.exists d) (append_nil before) ∙ h,
                  ap (λ p. disk.mkdir p d) (append_nil before) ∙ m,
                ),
                (λ q e. e),
              )
        | inr (d', m) ↦
            rw (t, h, m)
              (further before c cs d d' _ (λ e. laws.makes before d d' m) (laws.keeps before d d' m)
                (make_dirs-Made (before ++ (c ∷ [])) cs d'))
      ]
    ]
    | inr t ↦ rw t (
        further before c cs d d _ (λ e. absurd (ground (arith, e, t))) (λ q e. e)
          (make_dirs-Made (before ++ (c ∷ [])) cs d))
  ]

  -- MakeDir of a path that is not empty, on a disk where mkdir makes the directory or fails: it returns
  -- true and every part up to a slash of the path, with a slash at its end, exists, or it returns
  -- false and such a part does not exist and mkdir fails for it. What existed does.
  pub make_dir-Made :
      (c : ℕ) (cs : Text) (d : D)
      → (r : Bool × D) × (make_dir disk (c ∷ cs) d ≡ some r) × Made disk (c ∷ []) (slashed c cs) d r
  unfolding make_dir
  make_dir-Made c cs d =
      (make_dirs disk (c ∷ []) (slashed c cs) d, refl, make_dirs-Made (c ∷ []) (slashed c cs) d)
