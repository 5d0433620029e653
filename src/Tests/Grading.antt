-- ===== src/Tests/Grading.antt =====
-- The theorems on grading at concrete captures.
use surfacelock.Prelude.{
  All, ◌≡◌, refl, ◌↔◌, true, false, List, [], ◌∷◌, any, lookup, ◌≢◌, some, map, length, ◌≤◌,
}
use surfacelock.Prelude.Bytes.{Bytes, codes, eq_bytes, contains}
use surfacelock.Prelude.Results.{ok, err}
use surfacelock.Go.Text.{trim_space, trim_start, trim_end, has_prefix, is_space}
use surfacelock.Go.Json.Struct.{
  set_fields, unmarshal_struct, set_map, set_string, set_int, parse_int,
}
use surfacelock.Conformance.Exchange.{Exchange, Capture, eras, find, find_in, header, is_http}
use surfacelock.Conformance.View.{
  view_of, body_of, assign_envelope, set_error, assign_error, is_unreached, succeeded, refused,
}
use surfacelock.Conformance.Cells.{
  Cell, pass, should_violation, nonconformant, conformant_star, ungraded, verdict_of, tally,
  count_cell, join,
}
use surfacelock.Conformance.Cells.Verdicts.{is_must, is_graded, is_should, verdict_of_lem}
use surfacelock.Conformance.Tools.{is_accepted_batch}
use surfacelock.Conformance.Grade.{grade, unsubstantiable, does_not_conform, validate_era_claim}
use surfacelock.Conformance.Grade.Dead.{IsDead}
use surfacelock.Conformance.Grade.Unsubstantiable.{validate_era_claim-unsubstantiable}
use surfacelock.Conformance.Grade.Batch.{validate_era_claim_iff, grade-removed_batches}
use surfacelock.Conformance.View.{result_string, result_of, assign_result}
use surfacelock.Conformance.Classic.{has_version_header}
use surfacelock.Conformance.Probe.{Ask, Wire, on_fresh, roundtrip}
use surfacelock.Conformance.Probe.Plan.{
  probe_run, probe, probe_classic, classic_session, page_walk, cursor_and_batch, version_probe,
  session_probe, fresh_probes, newer_probe, cold_probe, discover_probe, get_probe, check_lock_entry,
}
use surfacelock.Conformance.Probe.Recorded.{check_lock_entry-dead}
use surfacelock.Conformance.Probe.Bounded.{probe-bounded}
use surfacelock.Conformance.Probe.Steps.{is_read_only}
use surfacelock.Conformance.Probe.ReadOnly.{probe_run-is_read_only}
use surfacelock.Tests.Fixtures.{demo, root_code, era_text, echo_entry}

-- What a run of a view computes with.
unfoldable view_code : Unit {0}
unfolding root_code trim_space trim_start trim_end has_prefix is_space set_fields unmarshal_struct
    set_map set_string set_int parse_int find find_in header is_http view_of body_of assign_envelope
    set_error assign_error is_unreached succeeded refused verdict_of tally count_cell join
    is_accepted_batch
view_code = tt

-- A batch answered by a batch.
abbrev batch : Exchange
batch = record {
  probe = codes "B1.batch";
  status = 200;
  resp_hdr = [];
  body = codes "[{\"id\":1}]";
  message = [];
  truncated = false;
  transport_error = [];
}

abbrev batch_capture : Capture
batch_capture = record {
  target = codes "http://localhost";
  kind = codes "http";
  era = era_text;
  exchanges = batch ∷ [];
}

-- An exchange that failed on its way.
abbrev lost : Exchange
lost = record batch {
  probe = codes "H1.init";
  status = 0;
  body = [];
  transport_error = codes "refused";
}

abbrev lost_capture : Capture
lost_capture = record batch_capture { exchanges = lost ∷ [] }

lost-IsDead : IsDead lost
unfolding view_code eq_bytes lookup
lost-IsDead = record { failed = refl; not_silence = refl; no_session = refl; no_content = refl }

validate_era_claim-unsubstantiable_example :
    (any is_graded (grade lost_capture).cells ≡ false)
    × ((grade lost_capture).verdict ≡ ungraded)
    × (validate_era_claim (grade lost_capture) ≡ err unsubstantiable)
validate_era_claim-unsubstantiable_example =
    validate_era_claim-unsubstantiable lost_capture (lost-IsDead, tt)

grade-removed_batches_example :
    ((grade batch_capture).verdict ≡ nonconformant)
    × (validate_era_claim (grade batch_capture) ≡ err does_not_conform)
unfolding view_code
grade-removed_batches_example = grade-removed_batches batch_capture batch refl refl refl refl refl

validate_era_claim_iff_example : (validate_era_claim (grade lost_capture) ≡ ok tt) ↔ (
    (any is_graded (grade lost_capture).cells ≡ true)
    × (any is_must (grade lost_capture).cells ≡ false))
validate_era_claim_iff_example = validate_era_claim_iff lost_capture

abbrev starred : List Cell
starred =
    record { probe = codes "H1.init"; outcome = pass }
    ∷ record { probe = codes "B1.batch"; outcome = should_violation }
    ∷ []

verdict_of_lem_example :
    ((verdict_of starred ≡ nonconformant) ↔ (any is_must starred ≡ true))
    × ((verdict_of starred ≡ ungraded) ↔ (any is_graded starred ≡ false))
    × ((verdict_of starred ≡ conformant_star)
        ↔ ((any is_must starred ≡ false) × (any is_should starred ≡ true)))
verdict_of_lem_example = verdict_of_lem starred

-- A target that accepts every dial, and no exchange with which gets an answer.
abbrev down : Wire
down = record { kind = codes "http"; dials = λ asks. true; answer = λ asks. lost }

down-IsDead : (asks : List Ask) (name : Bytes) → IsDead (record (down.answer asks) { probe = name })
unfolding view_code
down-IsDead asks name = record {
  failed = refl;
  not_silence = refl;
  no_session = refl;
  no_content = refl;
}

check_lock_entry-dead_example :
    (check_lock_entry down echo_entry ≢ ok tt)
    × ((contains eras echo_entry.protocol.era ≡ true)
        → down.dials [] ≡ true
        → check_lock_entry down echo_entry ≡ err unsubstantiable)
unfolding eq_bytes
check_lock_entry-dead_example = check_lock_entry-dead down echo_entry down-IsDead refl

-- What a run records of it.
abbrev down_capture : Capture
down_capture = record {
  target = codes "echo-server";
  kind = codes "http";
  era = era_text;
  exchanges =
      map (λ name. record lost { probe = name })
        (codes "H1.init"
          ∷ codes "T1.page0"
          ∷ codes "V1.noheader"
          ∷ codes "T2.badcursor"
          ∷ codes "B1.batch"
          ∷ codes "H2.newer"
          ∷ codes "H3.cold"
          ∷ codes "D1.discover"
          ∷ codes "G1.get"
          ∷ []);
}

down_recorded : probe down (codes "echo-server") era_text ≡ some down_capture
unfolding view_code probe probe_classic classic_session page_walk cursor_and_batch version_probe
    session_probe fresh_probes newer_probe cold_probe discover_probe get_probe roundtrip on_fresh
    has_version_header result_string result_of assign_result probe_run
down_recorded = refl

probe_run-is_read_only_example : All (λ a. is_read_only a ≡ true) (probe_run down era_text).asks
probe_run-is_read_only_example = probe_run-is_read_only down era_text

probe-bounded_example : length down_capture.exchanges ≤ 19
probe-bounded_example = probe-bounded down (codes "echo-server") era_text down_capture down_recorded
