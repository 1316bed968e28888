-- ===== src/Artifacts/Verdict.antt =====
-- The verdict of artifacts/screen_lookup.py on a source screen.
use androidctl.Prelude.{
  Text, opt_text_eq, opt_text_eq_iff, Bool, true, false, ◌&&◌, not, Option, none, some, List, All,
  All-keep_if, keep_if-kept, ◌≡◌, refl, sym, ◌∙◌, subst, arith, Bool-cases, Option-cases, inl, inr,
}
use androidctl.TextEquivalence.{Unicode}
use androidctl.Models.Errors.{Raised, returned, daemon_error, runtime_error, value_error, and_then}
use androidctl.Runtime.Models.{Runtime}
use androidctl.Artifacts.Payloads.{ScreenArtifactPayload}
use androidctl.Artifacts.Scan.{ArtifactFiles, ScreenArtifactScan, is_valid, scan_candidates}
use androidctl.Artifacts.Refusals.{Ends, Scanned, Refused, scan_candidates-Ends}
use androidctl.Artifacts.Lookup.{
  SourceScreenArtifactLookup, SourceScreenArtifactStatus, found, not_found, invalid_artifact,
  is_matching, matching, unknown_screen, newest, last_named, may_be_newer, invalid, use_match,
  choose_match, after_match, lookup_scanned, lookup_source_screen_artifact,
}
use androidctl.Artifacts.Newest.{
  NoNewer, newest-All, newest-NoNewer, newest-empty, newest-shadowed, last_named-shadowed, shadowed,
}

-- What a status says of the scanned artifacts.
module _ (id : Text) (path : Option Text) (payload : Option ScreenArtifactPayload)
    (scanned : List ScreenArtifactScan) where
  abbrev pub Said : SourceScreenArtifactStatus → Type 0
  Said not_found = newest (matching id scanned) ≡ none
  Said found =
      (a : ScreenArtifactScan) × (p : ScreenArtifactPayload) × (newest (matching id scanned)
        ≡ some a)
      × (path ≡ some a.path)
      × (payload ≡ some p)
      × (a.payload ≡ some p)
      × (p.screen_id ≡ id)
      × All (NoNewer a) (matching id scanned)
      × (shadowed a.sequence (unknown_screen id scanned) ≡ false)
  Said invalid_artifact =
      (a : ScreenArtifactScan) × (newest (matching id scanned) ≡ some a)
      × ((is_valid a.status && not (shadowed a.sequence (unknown_screen id scanned))) ≡ false)

abbrev pub Verdict : Text → SourceScreenArtifactLookup → Type 0
Verdict id l = Said id l.path l.payload l.scanned l.status

abbrev Chosen : Text → List ScreenArtifactScan → Raised SourceScreenArtifactLookup → Type 0
Chosen id scans r =
    (l : SourceScreenArtifactLookup) × (r ≡ returned l) × (l.scanned ≡ scans) × Verdict id l

module _ (id : Text) (scans : List ScreenArtifactScan) (a : ScreenArtifactScan)
    (chosen : newest (matching id scans) ≡ some a) (scanned : Scanned a)
    (same : opt_text_eq a.screen_id (some id) ≡ true) where
  -- What `Scanned` says, by the payload.
  abbrev Payload : Option ScreenArtifactPayload → Type 0
  Payload o = elim o [ none ↦ is_valid a.status ≡ false | some p ↦ a.screen_id ≡ some p.screen_id ]

  abbrev found_in : Text → ScreenArtifactPayload → SourceScreenArtifactLookup
  found_in path p = record {
    status = found;
    source_screen_id = id;
    path = some path;
    payload = some p;
    scanned = scans;
  }

  abbrev hidden : Bool
  hidden = shadowed a.sequence (unknown_screen id scans)

  invalid-Chosen :
      (b : ScreenArtifactScan)
      → (is_valid a.status && not hidden) ≡ false
      → Chosen id scans (returned (invalid id b.path scans))
  invalid-Chosen b h = (invalid id b.path scans, refl, refl, (a, chosen, h))

  use_match-invalid :
      is_valid a.status ≡ false → use_match id a scans ≡ returned (invalid id a.path scans)
  unfolding use_match
  use_match-invalid h = ground arith

  use_match-found :
      (p : ScreenArtifactPayload)
      → is_valid a.status ≡ true
      → a.payload ≡ some p
      → use_match id a scans ≡ returned (found_in a.path p)
  unfolding use_match
  use_match-found p h e = ground arith

  found-Chosen :
      (p : ScreenArtifactPayload)
      → hidden ≡ false
      → a.payload ≡ some p
      → Chosen id scans (returned (found_in a.path p))
  found-Chosen p clear e =
      let s : a.screen_id ≡ some p.screen_id = subst Payload e scanned in
      let own : some id ≡ some p.screen_id =
        sym ((opt_text_eq_iff a.screen_id (some id)).0 same) ∙ s in
      let named : p.screen_id ≡ id = cc in
      (
        found_in a.path p,
        refl,
        refl,
        (a, p, chosen, refl, refl, e, named, newest-NoNewer (matching id scans) a chosen, clear),
      )

  use_match-Chosen : hidden ≡ false → Chosen id scans (use_match id a scans)
  use_match-Chosen clear = elim (Bool-cases (is_valid a.status)) [
    | inr bad ↦
        subst (Chosen id scans) (sym (use_match-invalid bad)) (invalid-Chosen a (ground arith))
    | inl good ↦ elim (Option-cases a.payload) [
      | inl gone ↦ let s : is_valid a.status ≡ false = subst Payload gone scanned in absurd cc
      | inr (p, e) ↦
          subst (Chosen id scans) (sym (use_match-found p good e)) (found-Chosen p clear e)
    ]
  ]

  -- The newest artifact of an unknown screen stands for all of them.
  choose_match-Chosen :
      (o : Option ScreenArtifactScan)
      → last_named (unknown_screen id scans) ≡ none
      → newest (unknown_screen id scans) ≡ o
      → Chosen id scans (choose_match id a o scans)
  unfolding choose_match
  choose_match-Chosen none gone e =
      use_match-Chosen (newest-empty a.sequence (unknown_screen id scans) e)
  choose_match-Chosen (some b) gone e =
      let all = newest-shadowed a.sequence (unknown_screen id scans) b gone e in
      elim (Bool-cases (may_be_newer b.sequence a.sequence)) [
        | inl newer ↦ rw (newer) (invalid-Chosen b (ground arith))
        | inr older ↦ rw (older) (use_match-Chosen (all ∙ older))
      ]

module _ (id : Text) (scans : List ScreenArtifactScan) (all : All Scanned scans) where
  found_match-Chosen :
      (a : ScreenArtifactScan)
      → newest (matching id scans) ≡ some a
      → Chosen id scans (after_match id scans a)
  unfolding after_match
  found_match-Chosen a e =
      let scanned =
        newest-All Scanned (matching id scans) a e
          (All-keep_if Scanned (is_matching id) scans all) in
      let same = newest-All _ (matching id scans) a e (keep_if-kept (is_matching id) scans) in
      (elim (last_named (unknown_screen id scans))
          as (λ o.
            last_named (unknown_screen id scans) ≡ o
            → Chosen id scans (elim o [
              | some b ↦ returned (invalid id b.path scans)
              | none ↦ choose_match id a (newest (unknown_screen id scans)) scans
            ])) [
              | none ↦ λ gone.
                  choose_match-Chosen id scans a e scanned same (newest (unknown_screen id scans))
                    gone refl
              | some b ↦ λ last.
                  let h = last_named-shadowed a.sequence (unknown_screen id scans) b last in
                  invalid-Chosen id scans a e scanned same b (ground arith)
            ])
        refl

  abbrev missing : SourceScreenArtifactLookup
  missing = record {
    status = not_found;
    source_screen_id = id;
    path = none;
    payload = none;
    scanned = scans;
  }

  lookup_scanned-Chosen : Chosen id scans (lookup_scanned id scans)
  unfolding lookup_scanned
  lookup_scanned-Chosen =
      (elim (newest (matching id scans))
          as (λ o.
            newest (matching id scans) ≡ o
            → Chosen id scans
                (elim o [ none ↦ returned missing | some a ↦ after_match id scans a ])) [
                  | none ↦ λ gone. (missing, refl, refl, gone)
                  | some a ↦ found_match-Chosen a
                ])
        refl

-- What a lookup returns, or why it raises.
abbrev pub Answer :
    Unicode → ArtifactFiles → Runtime → Text → Raised SourceScreenArtifactLookup → Type 0
Answer u files r id (returned l) = (scan_candidates u files r ≡ returned l.scanned) × Verdict id l
Answer u files r id value_error = Refused u files r
Answer u files r id _ = ⊥

scans-Answer :
    (u : Unicode) (files : ArtifactFiles) (r : Runtime) (id : Text)
    (x : Raised (List ScreenArtifactScan))
    → scan_candidates u files r ≡ x
    → Ends (All Scanned) (Refused u files r) x
    → Answer u files r id (and_then x (lookup_scanned id))
scans-Answer u files r id (returned scans) e h =
    let answer = lookup_scanned-Chosen id scans h in
    subst (Answer u files r id) (sym answer.1)
      (subst (λ xs. scan_candidates u files r ≡ returned xs) (sym answer.2) e, answer.3)
scans-Answer u files r id (daemon_error x) e h = h
scans-Answer u files r id runtime_error e h = h
scans-Answer u files r id value_error e h = h

-- A lookup raises only the ValueError of a path that it looks at, the current artifact or a listed
-- one, whose name has digits that `int` refuses. Else it returns, with its scans of the candidates.
-- Where it finds the screen, it found the payload of a valid artifact that names the screen, which no
-- artifact of that screen outnumbers and no unreadable one may; where it reports an invalid artifact,
-- the newest one of the screen is invalid, or an unreadable one may be newer; else there is none of
-- that screen.
pub lookup-Answer :
    (u : Unicode) (files : ArtifactFiles) (r : Runtime) (id : Text)
    → Answer u files r id (lookup_source_screen_artifact u files r id)
unfolding lookup_source_screen_artifact
lookup-Answer u files r id =
    scans-Answer u files r id (scan_candidates u files r) refl (scan_candidates-Ends u files r)
