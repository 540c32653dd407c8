-- ===== src/Issuance/Tracked.antt =====
-- Which digest a planned ID gets, followed through the loops that plan one namespace.
use isomdl_elevenid.Common.{
  ℕ, ◌≡◌, ◌∙◌, refl, sym, ap, ◌≢◌, List, [], ◌∷◌, ◌++◌, length, length-append, drop, arith, some,
}
use isomdl_elevenid.Common.Order.{list_ord, nat_ord, ==_self, ==-eq-false}
use isomdl_elevenid.Common.Int.{int_ord}
use isomdl_elevenid.Common.Map.{get, insert, get-insert}
use isomdl_elevenid.Session.{Bytes}
use isomdl_elevenid.Digest.{DigestAlgorithm, DigestJob, DigestResult}
use isomdl_elevenid.Issuance.{DigestId, DigestIds, PlannedMdocDigest}
use isomdl_elevenid.Issuance.Aligned.{expected_digests}
use isomdl_elevenid.Issuance.Plan.{Planning}
use isomdl_elevenid.Issuance.Pushed.{append_assoc, new_planned, new_job, pushed}

pub drop-append : {A : Type 0} (xs ys : List A) → drop (length xs) (xs ++ ys) ≡ ys
drop-append [] ys = refl
drop-append (x ∷ xs) ys = drop-append xs ys

module _ (run : DigestJob → DigestResult) where
  pub expected_digests-append_length :
      (ds : List PlannedMdocDigest) (js rest : List DigestJob) (m : DigestIds)
      → length ds ≡ length js
      → expected_digests run ds (js ++ rest) m ≡ expected_digests run ds js m
  expected_digests-append_length [] [] [] m h = refl
  expected_digests-append_length [] [] (j ∷ rest) m h = refl
  expected_digests-append_length [] (j ∷ js) rest m h = absurd (omega arith)
  expected_digests-append_length (d ∷ ds) [] rest m h = absurd (omega arith)
  expected_digests-append_length (d ∷ ds) (j ∷ js) rest m h =
      expected_digests-append_length ds js rest _ (omega arith)

  expected_digests-snoc :
      (ds : List PlannedMdocDigest) (js : List DigestJob) (d : PlannedMdocDigest) (j : DigestJob)
      (m : DigestIds)
      → length ds ≡ length js
      → expected_digests run (ds ++ (d ∷ [])) (js ++ (j ∷ [])) m
        ≡ insert d.digest_id (run j).digest (expected_digests run ds js m)
  expected_digests-snoc [] [] d j m h = refl
  expected_digests-snoc [] (_ ∷ _) d j m h = absurd (omega arith)
  expected_digests-snoc (_ ∷ _) [] d j m h = absurd (omega arith)
  expected_digests-snoc (e ∷ ds) (i ∷ js) d j m h = expected_digests-snoc ds js d j _ (omega arith)

  module _ (before : List DigestJob) where
    -- The jobs behind `before` stand for the planned digests one by one.
    abbrev pub Tracked : Planning → Type 0
    Tracked st =
        (js : List DigestJob) × (st.jobs ≡ before ++ js) × (length st.planned_digests ≡ length js)

    -- The digests that the assembly files for what is planned so far.
    abbrev pub placed : Planning → DigestIds
    placed st = expected_digests run st.planned_digests (drop (length before) st.jobs) []

    module _ (credential : ℕ) (id : DigestId) (ordinal : ℕ) (algorithm : DigestAlgorithm)
        (input : Bytes) (st : Planning) where
      pub pushed-Tracked : Tracked st → Tracked (pushed credential id ordinal algorithm input st)
      pushed-Tracked (js, split, same) = (
        js ++ (new_job credential ordinal algorithm input st ∷ []),
        ap (λ l. l ++ (new_job credential ordinal algorithm input st ∷ [])) split
            ∙ append_assoc before js (new_job credential ordinal algorithm input st ∷ []),
        omega (
          arith,
          same,
          length-append st.planned_digests (new_planned credential id st ∷ []),
          length-append js (new_job credential ordinal algorithm input st ∷ []),
        ),
      )

      pub placed-pushed :
          Tracked st
          → placed (pushed credential id ordinal algorithm input st)
            ≡ insert id (run (new_job credential ordinal algorithm input st)).digest (placed st)
      placed-pushed (js, split, same) =
          let j = new_job credential ordinal algorithm input st in
          let d = new_planned credential id st in
          ap
            (λ l.
              expected_digests run (st.planned_digests ++ (d ∷ []))
                (drop (length before) (l ++ (j ∷ []))) [])
            split
          ∙ ap
              (λ l.
                expected_digests run (st.planned_digests ++ (d ∷ [])) (drop (length before) l) [])
              (append_assoc before js (j ∷ []))
          ∙ ap (λ l. expected_digests run (st.planned_digests ++ (d ∷ [])) l [])
              (drop-append before (js ++ (j ∷ [])))
          ∙ expected_digests-snoc st.planned_digests js d j [] same
          ∙ ap (λ l. insert id (run j).digest (expected_digests run st.planned_digests l []))
              (sym (drop-append before js))
          ∙ ap
              (λ l.
                insert id (run j).digest
                  (expected_digests run st.planned_digests (drop (length before) l) []))
              (sym split)

      pub get-pushed_self :
          Tracked st
          → get id (placed (pushed credential id ordinal algorithm input st))
            ≡ some (run (new_job credential ordinal algorithm input st)).digest
      get-pushed_self t =
          rw
            (
              placed-pushed t,
              get-insert id id (run (new_job credential ordinal algorithm input st)).digest
                  (placed st),
              ==_self id,
            )
            refl

      pub get-pushed_other :
          (other : DigestId) (v : Bytes)
          → Tracked st
          → id ≢ other
          → get other (placed st) ≡ some v
          → get other (placed (pushed credential id ordinal algorithm input st)) ≡ some v
      get-pushed_other other v t ne h =
          rw
            (
              placed-pushed t,
              get-insert other id (run (new_job credential ordinal algorithm input st)).digest
                  (placed st),
              ==-eq-false id other ne,
            )
            h
