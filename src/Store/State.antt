-- ===== src/Store/State.antt =====
-- The stored fetch state of a source.
use sredevopsorg_sec_feed.Prelude.{
  if◌then◌else◌, String, ◌≡◌, refl, ◌∙◌, inl, inr, Option, none, some, eq_refl, ◌==◌, Option-cases,
}
use sredevopsorg_sec_feed.Prelude.Dict.{lookup, lookup-insert}
use sredevopsorg_sec_feed.Store.{SourceState, Db}
use sredevopsorg_sec_feed.Store.Tables.{coalesce, get_source_state, set_source_state}

-- The validators, the payload and the last success that a state holds.
abbrev pub field {ℓ} : {A : Type ℓ} → (SourceState → Option A) → Option SourceState → Option A
field f none = none
field f (some s) = f s

-- What is known of a source after an attempt is recorded: the time and the error are the
-- attempt's, and each of the others is the attempt's if it gives one, and what it was if not.
pub record IsRecorded (new : SourceState) (before : Option SourceState) (after : SourceState)
    : Type 0 where
  pub etag_kept : after.etag ≡ coalesce new.etag (field (λ s. s.etag) before)
  pub last_modified_kept :
      after.last_modified ≡ coalesce new.last_modified (field (λ s. s.last_modified) before)
  pub payload_kept :
      after.last_payload ≡ coalesce new.last_payload (field (λ s. s.last_payload) before)
  pub last_ok_kept : after.last_ok_at ≡ coalesce new.last_ok_at (field (λ s. s.last_ok_at) before)
  pub time_new : after.last_fetched_at ≡ new.last_fetched_at
  pub error_new : after.last_error ≡ new.last_error

coalesce-none {ℓ} : {A : Type ℓ} (new : Option A) → new ≡ coalesce new none
coalesce-none none = refl
coalesce-none (some a) = refl

-- Recording an attempt at one source keeps the validators, the payload and the time of the last
-- success that it does not supply, takes its time and error, and leaves every other source alone.
pub get-set_source_state :
    (source_id : String) (new : SourceState) (db : Db)
    → (after : SourceState) × ((other : String)
        → get_source_state other (set_source_state source_id new db)
          ≡ (if source_id == other then some after else get_source_state other db))
      × IsRecorded new (get_source_state source_id db) after
unfolding get_source_state set_source_state
get-set_source_state source_id new db = elim (Option-cases (lookup source_id db.source_state)) [
  | inl e ↦
      rw (e, set_source_state)
        (
          new,
          λ other. lookup-insert source_id other new db.source_state,
          record {
            etag_kept = coalesce-none new.etag;
            last_modified_kept = coalesce-none new.last_modified;
            payload_kept = coalesce-none new.last_payload;
            last_ok_kept = coalesce-none new.last_ok_at;
            time_new = refl;
            error_new = refl;
          },
        )
  | inr (old, e) ↦
      let kept : SourceState = record {
        etag = coalesce new.etag old.etag;
        last_modified = coalesce new.last_modified old.last_modified;
        last_fetched_at = new.last_fetched_at;
        last_ok_at = coalesce new.last_ok_at old.last_ok_at;
        last_error = new.last_error;
        last_payload = coalesce new.last_payload old.last_payload;
      } in
      rw (e, set_source_state)
        (
          kept,
          λ other. lookup-insert source_id other kept db.source_state,
          record {
            etag_kept = refl;
            last_modified_kept = refl;
            payload_kept = refl;
            last_ok_kept = refl;
            time_new = refl;
            error_new = refl;
          },
        )
]

-- The state that the source has afterwards.
pub set_source_state_lem :
    (source_id : String) (new : SourceState) (db : Db)
    → (after : SourceState) × (get_source_state source_id (set_source_state source_id new db)
        ≡ some after)
      × IsRecorded new (get_source_state source_id db) after
set_source_state_lem source_id new db =
    let (after, found, recorded) = get-set_source_state source_id new db in
    (after, found source_id ∙ rw eq_refl refl, recorded)
