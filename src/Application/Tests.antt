-- ===== src/Application/Tests.antt =====
-- A disk and a link for include/Application.hpp.
use libsimplesvr.Base.{
  ◌≡◌, inl, inr, refl, sym, ap, ◌∙◌, Bool, true, false, ◌||◌, some, none, [], ◌∷◌, ◌++◌, ◌==◌,
  Bool-cases, arith,
}
use libsimplesvr.Configure.{Text, text_eq}
use libsimplesvr.Configure.Laws.{Lacks}
use libsimplesvr.Application.{
  Disk, make_dir, make_dirs, ends_with_slash, get_name, get_runtime_path, linked,
}
use libsimplesvr.Application.Dirs.{IsDisk, Made, slashed, make_dir-Made}
use libsimplesvr.Application.Names.{IsFolder, get_runtime_path-get_name}

-- The directories that there are; mkdir always succeeds.
abbrev disk : Disk (Text → Bool)
disk = record { exists = λ d p. d p; mkdir = λ p d. some (λ q. text_eq p q || d q) }

text_eq_refl : (s : Text) → text_eq s s ≡ true
unfolding text_eq
text_eq_refl [] = refl
text_eq_refl (c ∷ cs) = let t : (c == c) ≡ true = ground arith in rw t (text_eq_refl cs)

-- "a/b".
made :
    make_dir disk (97 ∷ 47 ∷ 98 ∷ []) (λ p. false)
    ≡ some (true, λ q. text_eq (97 ∷ 47 ∷ 98 ∷ []) q || (text_eq (97 ∷ []) q || false))
unfolding make_dir make_dirs ends_with_slash text_eq
made = refl

disk_ok : IsDisk disk
disk_ok = record { makes = makes; keeps = keeps }
  where
    added :
        (p q : Text) (d d' : Text → Bool) → disk.mkdir p d ≡ some d' → d' q ≡ (text_eq p q || d q)
    added p q d d' e = sym (ap (λ o. elim o [ none ↦ false | some f ↦ f q ]) e)

    makes : (p : Text) (d d' : Text → Bool) → disk.mkdir p d ≡ some d' → d' p ≡ true
    makes p d d' e = added p p d d' e ∙ ap (λ b. b || d p) (text_eq_refl p)

    keeps :
        (p : Text) (d d' : Text → Bool)
        → disk.mkdir p d ≡ some d'
        → (q : Text) → d q ≡ true
        → d' q ≡ true
    keeps p d d' e q h = added p q d d' e ∙ elim (Bool-cases (text_eq p q)) [
      | inl t ↦ ap (λ b. b || d q) t
      | inr t ↦ ap (λ b. b || d q) t ∙ h
    ]

make_dir-Made_example :
    (r : Bool × (Text → Bool)) × (make_dir disk (97 ∷ 47 ∷ 98 ∷ []) (λ p. false) ≡ some r)
    × Made disk (97 ∷ []) (slashed 97 (47 ∷ 98 ∷ [])) (λ p. false) r
make_dir-Made_example = make_dir-Made disk disk_ok 97 (47 ∷ 98 ∷ []) (λ p. false)

-- "/b/c".
get_runtime_path-get_name_example :
    (get_runtime_path (some (47 ∷ 98 ∷ 47 ∷ 99 ∷ [])) ++ get_name (some (47 ∷ 98 ∷ 47 ∷ 99 ∷ []))
      ≡ linked (47 ∷ 98 ∷ 47 ∷ 99 ∷ []))
    × Lacks 47 (get_name (some (47 ∷ 98 ∷ 47 ∷ 99 ∷ [])))
    × IsFolder (get_runtime_path (some (47 ∷ 98 ∷ 47 ∷ 99 ∷ [])))
get_runtime_path-get_name_example = get_runtime_path-get_name (47 ∷ 98 ∷ 47 ∷ 99 ∷ [])
