-- ===== src/Snapshot/Handler/Bounded.antt =====
-- A snapshot's response is whole and within its bound (server/internal/snapshot/handler.go).
use stok_sync.Common.{
  Option, none, some, true, false, List, String, ◌≡◌, refl, ap, ◌∙◌, subst, arith, Bool-cases, inl,
  inr, ℕ, ◌==◌,
}
use stok_sync.Common.Int.{ℤ, pos, ◌-ℤ◌, ◌≤ℤ◌, leb_ℤ, ltb_ℤ}
use stok_sync.Common.Lists.{length}
use stok_sync.Errors.{Uuid, SnapshotError, snapshot_error, Result, ok, err, Error}
use stok_sync.Db.Types.{Database}
use stok_sync.Sync.Operations.{Identity}
use stok_sync.Snapshot.{Limits, Snapshot, out_of_rows, is_valid_limits, get_snapshot}
use stok_sync.Snapshot.Complete.{get_snapshot-replica}
use stok_sync.Snapshot.Handler.{
  SnapshotResponse, response_from_snapshot, write, RequestBody, malformed_request, failure, success,
  write_snapshot_error, empty_buffer, sent, encoded, found, get,
}

failed : {status : ℕ} {code : String} {body : List ℕ} → failure status code ≡ success body → ⊥
failed e = subst (λ r. elim r [ failure _ _ ↦ Unit | success _ ↦ ⊥ ]) e tt

body_of : {b c : List ℕ} → success b ≡ success c → b ≡ c
body_of {b} e = ap (λ r. elim r [ failure _ _ ↦ b | success x ↦ x ]) e

write_error : (e : Error) (body : List ℕ) → write_snapshot_error e ≡ success body → ⊥
unfolding write_snapshot_error
write_error (snapshot_error SnapshotError.snapshot_too_large) body h = failed h
write_error (snapshot_error SnapshotError.invalid_user) body h = failed h
write_error _ body h = failed h

at_most : (a b : ℤ) → ltb_ℤ b a ≡ false → a ≤ℤ b
at_most a b h = ground arith

valid_products : (l : Limits) → is_valid_limits l ≡ true → out_of_rows l.max_products ≡ false
unfolding is_valid_limits
valid_products l h = ground arith

valid_movements : (l : Limits) → is_valid_limits l ≡ true → out_of_rows l.max_movements ≡ false
unfolding is_valid_limits
valid_movements l h = ground arith

get_snapshot-reads :
    (limits : Limits) (user : Uuid) (db : Database)
    → is_valid_limits limits ≡ true
    → (get_snapshot limits user db).1 ≡ db
unfolding get_snapshot
get_snapshot-reads limits user db sound = elim (Bool-cases (user == 0)) [
  | inl nil ↦ rw nil refl
  | inr known ↦
      ap (λ r. r.1)
        (get_snapshot-replica user db limits known (valid_products limits sound)
          (valid_movements limits sound))
]

module _ (encode : SnapshotResponse → Option (List ℕ)) where
  sent_whole :
      (limits : Limits) (value body : List ℕ)
      → sent encode limits (write value (empty_buffer encode limits)) ≡ success body
      → (value ≡ body) × (pos (length body) ≤ℤ limits.max_response_bytes)
  unfolding write
  sent_whole limits value body h =
      elim (Bool-cases (leb_ℤ (limits.max_response_bytes -ℤ pos 0) (pos 0))) [
        | inl closed ↦ elim (failed (rw closed at h)) [ ]
        | inr open_space ↦
            elim (Bool-cases (ltb_ℤ (limits.max_response_bytes -ℤ pos 0) (pos (length value)))) [
              | inl cut ↦ elim (failed (rw (open_space, cut) at h)) [ ]
              | inr fits ↦
                  elim (Bool-cases (ltb_ℤ limits.max_response_bytes (pos (length value)))) [
                    | inl long ↦ elim (failed (rw (open_space, fits, long) at h)) [ ]
                    | inr short ↦
                        let same = body_of (rw (open_space, fits, short) at h) in
                        (
                          same,
                          subst (λ b. pos (length b) ≤ℤ limits.max_response_bytes) same
                              (at_most (pos (length value)) limits.max_response_bytes short),
                        )
                  ]
            ]
      ]

  -- The identity's whole snapshot, encoded without a cut.
  abbrev pub Delivered : Limits → Limits → Option Identity → Database → List ℕ → Type 0
  Delivered limits service_limits identity db body =
      (i : Identity) × (s : Snapshot) × (identity ≡ some i)
      × (get_snapshot service_limits i.user_id db ≡ (ok s, db))
      × (encode (response_from_snapshot s) ≡ some body)
      × (pos (length body) ≤ℤ limits.max_response_bytes)

  found_whole :
      (limits service_limits : Limits) (i : Identity) (db db' : Database) (body : List ℕ)
      (r : Result Snapshot × Database)
      → r.1 ≡ db
      → get_snapshot service_limits i.user_id db ≡ r
      → found encode limits r ≡ (success body, db')
      → Delivered limits service_limits (some i) db body
  found_whole limits service_limits i db db' body (err e, d) reads at_read h =
      elim (write_error e body (ap (λ r. r.0) h)) [ ]
  found_whole limits service_limits i db db' body (ok s, d) reads at_read h =
      go (encode (response_from_snapshot s)) refl (ap (λ r. r.0) h)
    where
      go :
          (o : Option (List ℕ))
          → encode (response_from_snapshot s) ≡ o
          → encoded encode limits o ≡ success body
          → Delivered limits service_limits (some i) db body
      go none made sends = elim (failed sends) [ ]
      go (some value) made sends =
          let (same, short) = sent_whole limits value body sends in
          (i, s, refl, at_read ∙ ap (λ x. (ok s, x)) reads, made ∙ ap some same, short)

  found_lem :
      (limits service_limits : Limits) (i : Identity) (raw_query : String) (request : RequestBody)
      (db db' : Database) (body : List ℕ)
      → get encode limits service_limits (some i) raw_query request db ≡ (success body, db')
      → found encode limits (get_snapshot service_limits i.user_id db) ≡ (success body, db')
  unfolding get
  found_lem limits service_limits i raw_query request db db' body h =
      elim (Bool-cases (malformed_request raw_query request limits.max_request_bytes)) [
        | inl bad ↦ elim (failed (ap (λ r. r.0) (rw bad at h))) [ ]
        | inr fine ↦ rw fine at h
      ]

  -- If the service's limits are valid, a successful answer is the encoding of the whole snapshot of the
  -- authenticated account, without a cut, and it is within the bound on responses.
  pub get-Delivered :
      (limits service_limits : Limits) (identity : Option Identity) (raw_query : String)
      (request : RequestBody) (db db' : Database) (body : List ℕ)
      → is_valid_limits service_limits ≡ true
      → get encode limits service_limits identity raw_query request db ≡ (success body, db')
      → Delivered limits service_limits identity db body
  unfolding get
  get-Delivered limits service_limits none raw_query request db db' body sound h =
      elim (failed (ap (λ r. r.0) h)) [ ]
  get-Delivered limits service_limits (some i) raw_query request db db' body sound h =
      found_whole limits service_limits i db db' body (get_snapshot service_limits i.user_id db)
        (get_snapshot-reads service_limits i.user_id db sound) refl
        (found_lem limits service_limits i raw_query request db db' body h)
