-- ===== src/Store/Artifacts/Content.antt =====
-- Evidence cannot be replaced: an artifact id keeps its task and its content.
use cmap.Common.{
  false, String, ◌==◌, ==→eq, some, List, [], ◌∷◌, get, get-put, values, any, ◌≡◌, refl, sym, ◌∙◌,
  arith, Bool-cases, inl, inr, subst,
}
use cmap.Entities.Evidence.{Artifact}
use cmap.Store.{MemoryStore}
use cmap.Store.Artifacts.{is_other_content, takes_place, put_artifact}

-- puts in order, returned or thrown
unfoldable pub put_artifacts : List Artifact → MemoryStore → MemoryStore
put_artifacts [] s = s
put_artifacts (a ∷ more) s = put_artifacts more (put_artifact a s).1

put_artifact-keeps :
    (a : Artifact) (s : MemoryStore) (k : String) (old : Artifact)
    → get s.artifacts k ≡ some old
    → (new : Artifact) × (get (put_artifact a s).1.artifacts k ≡ some new)
      × (new.sha256 ≡ old.sha256)
      × (new.task_id ≡ old.task_id)
unfolding put_artifact
put_artifact-keeps a s k old found =
    elim (Bool-cases (is_other_content (get s.artifacts a.artifact_id) a)) [
      | inl other ↦ (old, rw other found, refl, refl)
      | inr same ↦ elim (Bool-cases (any (takes_place a) (values s.artifacts))) [
        | inl taken ↦ (old, rw (same, taken) found, refl, refl)
        | inr free ↦ elim (Bool-cases (a.artifact_id == k)) [
          | inr apart ↦ (old, rw (same, free, get-put, apart) found, refl, refl)
          | inl here ↦
              let e : a.artifact_id ≡ k = ==→eq a.artifact_id k here in
              let at : get s.artifacts a.artifact_id ≡ some old =
                subst (λ z. get s.artifacts z ≡ some old) (sym e) found in
              let kept : is_other_content (some old) a ≡ false =
                subst (λ o. is_other_content o a ≡ false) at same in
              (
                a,
                rw (same, free, get-put, here) refl,
                sym (==→eq old.sha256 a.sha256 (ground arith)),
                sym (==→eq old.task_id a.task_id (ground arith)),
              )
        ]
      ]
    ]

-- After any puts of artifacts, accepted or refused, an artifact that is on record is still there
-- under its id, for the same task and with the same content hash.
pub put_artifacts-keep_content :
    (puts : List Artifact) (s : MemoryStore) (k : String) (old : Artifact)
    → get s.artifacts k ≡ some old
    → (new : Artifact) × (get (put_artifacts puts s).artifacts k ≡ some new)
      × (new.sha256 ≡ old.sha256)
      × (new.task_id ≡ old.task_id)
unfolding put_artifacts
put_artifacts-keep_content [] s k old found = (old, found, refl, refl)
put_artifacts-keep_content (a ∷ more) s k old found =
    let (mid, there, hash, task) = put_artifact-keeps a s k old found in
    let (new, at_last, hash', task') =
      put_artifacts-keep_content more (put_artifact a s).1 k mid there in
    (new, at_last, hash' ∙ hash, task' ∙ task)
