-- ===== src/Routes/Submit/Cache.antt =====
-- What a submission of an analysis that is there costs.
use battle_cloud.Common.{◌≡◌, true, List, [], ◌∷◌, ◌++◌, some, find?, Bool-cases, inl, inr, Bool}
use battle_cloud.Contract.Identity.{
  SubmitRequest, derive_identity, same_identity, same_identity_iff,
}
use battle_cloud.Contract.Schemas.{parse_submit, success}
use battle_cloud.Store.Analyses.{AnalysisRow, to_analysis, analysis_by_identity}
use battle_cloud.Routes.{envelope, sent, analysis, Deps, Api, Outcome}
use battle_cloud.Routes.Submit.{Request, respond, handle, submit_analysis}

find?-there :
    (q : AnalysisRow → Bool) (above : List AnalysisRow) (row : AnalysisRow)
    (below : List AnalysisRow)
    → q row ≡ true
    → (found : AnalysisRow) × (find? q (above ++ row ∷ below) ≡ some found) × (q found ≡ true)
find?-there q [] row below h = (row, rw h, h)
find?-there q (a ∷ above) row below h = elim (Bool-cases (q a)) [
  | inl e ↦ (a, rw e, e)
  | inr e ↦ let (found, there, k) = find?-there q above row below h in (found, rw (e, there), k)
]

module _ (deps : Deps) (request : Request) (api : Api) where
  -- The reply is an analysis of the identity, at no cost.
  abbrev pub IsHit : SubmitRequest → Outcome → Type 0
  IsHit submit outcome =
      (found : AnalysisRow) × (found.identity ≡ derive_identity submit deps.build)
      × (outcome ≡ record {
        answer = sent 200 [] (analysis (envelope (to_analysis found)));
        api = api;
        actions = [];
      })

  -- When the table has an analysis with the identity of a submission, wherever it stands, the
  -- submission is answered 200 with an analysis of that identity. The limiter is not charged and
  -- nothing else changes, no replay is fetched and no worker is launched.
  pub submit_analysis-IsHit :
      (submit : SubmitRequest) (above : List AnalysisRow) (row : AnalysisRow)
      (below : List AnalysisRow)
      → parse_submit deps.issues request.body ≡ success submit
      → api.analyses ≡ above ++ row ∷ below
      → row.identity ≡ derive_identity submit deps.build
      → IsHit submit (submit_analysis deps request api)
  unfolding submit_analysis handle respond analysis_by_identity
  submit_analysis-IsHit submit above row below parses table same =
      let identity = derive_identity submit deps.build in
      let q : AnalysisRow → Bool = λ r. same_identity r.identity identity in
      let (found, there, k) =
        find?-there q above row below ((same_identity_iff row.identity identity).1 same) in
      (found, (same_identity_iff found.identity identity).0 k, rw (parses, table, there))
