-- ===== src/Application/Names.antt =====
-- GetName and GetRuntimePath of include/Application.hpp.
use libsimplesvr.Base.{
  ℕ, zero, suc, ◌+◌, ◌≡◌, ◌≢◌, ◌⊎◌, inl, inr, refl, ap, false, some, List, [], ◌∷◌, ◌++◌, take,
  drop, ◌==◌, arith, Bool-cases,
}
use libsimplesvr.Configure.{Text}
use libsimplesvr.Configure.Laws.{Lacks}
use libsimplesvr.Application.{behind_slash, linked, get_name, get_runtime_path}

take-drop : (n : ℕ) (s : Text) → take n s ++ drop n s ≡ s
take-drop zero s = refl
take-drop (suc n) [] = refl
take-drop (suc n) (c ∷ cs) = ap (◌∷◌ c) (take-drop n cs)

-- A text up to its last slash, or the empty text.
abbrev pub IsFolder : Text → Type 0
IsFolder s = (s ≡ []) ⊎ ((t : Text) × (s ≡ t ++ (47 ∷ [])))

-- Where the text has no slash, or what is around the last.
split_lem :
    (s : Text)
    → ((behind_slash s ≡ 0) × Lacks 47 s)
      ⊎ ((n : ℕ) × (behind_slash s ≡ suc n)
          × Lacks 47 (drop (suc n) s)
          × (t : Text) × (take (suc n) s ≡ t ++ (47 ∷ [])))
unfolding behind_slash
split_lem [] = inl (refl, tt)
split_lem (c ∷ cs) = elim (split_lem cs) [
  | inl (z, l) ↦ elim (Bool-cases (c == 47)) [
    | inl t ↦
        let e : c ≡ 47 = ground (arith, t) in rw (z, t) (inr (0, refl, l, [], ap (λ x. x ∷ []) e))
    | inr t ↦ rw (z, t) (inl (refl, ((let e : c ≢ 47 = ground (arith, t) in e), l)))
  ]
  | inr (n, e, l, t, h) ↦
      let k : suc n + 1 ≡ suc (suc n) = omega arith in
      let z : (suc n == 0) ≡ false = ground arith in
      rw (e, z) (inr (suc n, k, l, c ∷ t, ap (◌∷◌ c) h))
]

-- Where readlink succeeds, GetRuntimePath and GetName are the link's first 259 bytes up to the first
-- 0, cut behind the last slash: the name has no slash, and the path ends in one or is empty.
pub get_runtime_path-get_name :
    (target : List ℕ)
    → (get_runtime_path (some target) ++ get_name (some target) ≡ linked target)
      × Lacks 47 (get_name (some target))
      × IsFolder (get_runtime_path (some target))
unfolding get_runtime_path get_name
get_runtime_path-get_name target =
    let s = linked target in
    elim (split_lem s) [
      | inl (z, l) ↦ simp z (refl, l, inl refl)
      | inr (n, e, l, t, h) ↦ rw e (take-drop (suc n) s, l, inr (t, h))
    ]
