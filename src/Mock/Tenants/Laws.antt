-- ===== src/Mock/Tenants/Laws.antt =====
-- The handlers of /tenants as a store: which reply a request gets, what it writes, and what later
-- requests then read.
use wasm_hooks.Common.{
  ℕ, ◌==◌, ◌&&◌, ◌≡◌, ◌≢◌, refl, ap, ◌∙◌, String, Bool, true, false, not, List, [], ◌∷◌, ◌++◌,
  Option, none, some, arith, any, find, replace_first, eq_iff, is_some, if◌then◌else◌, find-eq-some,
  any_of_find, find-replace_first, find-replace_first_other, find-append_none, find-append_other,
}
use wasm_hooks.Common.Int.{int_eq}
use wasm_hooks.Json.{Record, lookup}
use wasm_hooks.Clock.{to_iso_string}
use wasm_hooks.Entity.Tenant.{Tenant}
use wasm_hooks.Mock.Db.{Db}
use wasm_hooks.Mock.Http.{Reply, json, status_of}
use wasm_hooks.Mock.Tenants.{
  has_external_id, create_error, patch_error, new_tenant, patched, create_tenant, create_checked,
  insert_tenant, patch_tenant, patch_checked, patch_found, store_patch, patch_changes, PatchField,
  get_tenant, found_tenant,
}
use wasm_hooks.Mock.Tenants.Changed.{name_changed, rate_changed, concurrency_changed}
use wasm_hooks.Mock.Tenants.Fields.{
  patch_error-none, patch_changes-chosen, chosen, patched_lem, patch_changes-nil, text_after,
  number_after,
}

-- Different identifiers are told apart by the tests of the handlers.
other_id :
    (id other : String)
    → id ≢ other
    → (t : Tenant) → has_external_id id t ≡ true
    → has_external_id other t ≡ false
other_id id other ne t h = ground (arith, eq_iff t.external_id id, eq_iff t.external_id other)

module _ {F : Type 0} (db : Db F) where
  abbrev is_taken : String → Bool
  is_taken id = any (has_external_id id) db.tenants

  -- A creation is refused with 422 for a malformed body and with 409 for an identifier that is
  -- taken, and otherwise it answers 201.
  pub create_tenant-status :
      (body : Record) (now : ℕ)
      → status_of (create_tenant body now db).0 ≡ (
          if is_some (create_error body)
          then 422
          else if is_taken (new_tenant body now).external_id
          then 409
          else 201)
  unfolding create_tenant create_checked insert_tenant
  create_tenant-status body now = ground arith

  pub create_tenant-Reads :
      (body : Record) (now : ℕ)
      → create_error body ≡ none
      → is_taken (new_tenant body now).external_id ≡ false
      → let t = new_tenant body now in
        let after = (create_tenant body now db).1 in
        ((create_tenant body now db).0 ≡ json 201 t)
        × (get_tenant t.external_id after ≡ (json 200 t, after))
        × ((other : String)
            → t.external_id ≢ other
            → (get_tenant other after).0 ≡ (get_tenant other db).0)
  unfolding create_tenant create_checked insert_tenant get_tenant found_tenant
  create_tenant-Reads body now ok free = (
    rw (ok, free) refl,
    rw (ok, free)
        (rw
          (find-append_none (has_external_id (new_tenant body now).external_id) db.tenants
            (new_tenant body now) free ((eq_iff _ _).1 refl))
          refl),
    λ other ne.
        rw (ok, free)
          (rw
            (find-append_other (has_external_id other) db.tenants (new_tenant body now)
              (other_id _ other ne (new_tenant body now) ((eq_iff _ _).1 refl)))
            (same_answer other (find (has_external_id other) db.tenants))),
  )
    where
      same_answer :
          (other : String) (o : Option Tenant)
          → (found_tenant other o
              (record db { tenants = db.tenants ++ new_tenant body now ∷ [] })).0
            ≡ (found_tenant other o db).0
      same_answer other none = refl
      same_answer other (some t) = refl

  -- A well-formed creation under an identifier that is free answers 201 with the new tenant, which is
  -- then read back under that identifier; an identifier that is another one reads as before.
  pub create_tenant-get_tenant :
      (body : Record) (now : ℕ) (other : String)
      → create_error body ≡ none
      → is_taken (new_tenant body now).external_id ≡ false
      → (new_tenant body now).external_id ≢ other
      → let t = new_tenant body now in
        let after = (create_tenant body now db).1 in
        ((create_tenant body now db).0 ≡ json 201 t)
        × (get_tenant t.external_id after ≡ (json 200 t, after))
        × ((get_tenant other after).0 ≡ (get_tenant other db).0)
  create_tenant-get_tenant body now other ok free ne =
      let (answer, read, others) = create_tenant-Reads body now ok free in
      (answer, read, others other ne)

-- The later of two times where something changed.
abbrev pub stamp : List PatchField → String → String → String
stamp [] old new = old
stamp (f ∷ fs) old new = new

stamp-chosen :
    (a b c : Bool) (old new : String)
    → stamp (chosen (not a) (not b) (not c)) old new ≡ (if a && b && c then old else new)
unfolding chosen
stamp-chosen true true true old new = refl
stamp-chosen true true false old new = refl
stamp-chosen true false true old new = refl
stamp-chosen true false false old new = refl
stamp-chosen false true true old new = refl
stamp-chosen false true false old new = refl
stamp-chosen false false true old new = refl
stamp-chosen false false false old new = refl

-- The tenant that a patch leaves: the fields that the body names have the body's values, the
-- others stay, and the time of change moves only if a field changed.
abbrev pub after_patch : Tenant → Record → ℕ → Tenant
after_patch t body now = record t {
  name = text_after (lookup "name" body) t.name;
  rate_limit_rps = number_after (lookup "rate_limit_rps" body) t.rate_limit_rps;
  concurrency_limit = number_after (lookup "concurrency_limit" body) t.concurrency_limit;
  updated_at = stamp (patch_changes t body) t.updated_at (to_iso_string now);
}

after_patch-nil :
    (t : Tenant) (body : Record) (now : ℕ) → patch_changes t body ≡ [] → after_patch t body now ≡ t
after_patch-nil t body now e = rw e (ground (arith, patch_changes-nil t body e))

after_patch-cons :
    (t : Tenant) (body : Record) (now : ℕ) (f : PatchField) (fs : List PatchField)
    → patch_changes t body ≡ f ∷ fs
    → after_patch t body now ≡ patched t body now
after_patch-cons t body now f fs e = rw (e, patched_lem t body now) refl

-- The patched tenant in terms of its values: its time of change is a new one exactly if a value is.
abbrev pub due_patch : Tenant → Record → ℕ → Tenant
due_patch t body now = record t {
  name = text_after (lookup "name" body) t.name;
  rate_limit_rps = number_after (lookup "rate_limit_rps" body) t.rate_limit_rps;
  concurrency_limit = number_after (lookup "concurrency_limit" body) t.concurrency_limit;
  updated_at =
      if text_after (lookup "name" body) t.name == t.name
        && int_eq (number_after (lookup "rate_limit_rps" body) t.rate_limit_rps) t.rate_limit_rps
        && int_eq (number_after (lookup "concurrency_limit" body) t.concurrency_limit)
            t.concurrency_limit
      then t.updated_at
      else to_iso_string now;
}

after_patch-due :
    (t : Tenant) (body : Record) (now : ℕ)
    → patch_error body ≡ none
    → after_patch t body now ≡ due_patch t body now
after_patch-due t body now ok =
    let checks = patch_error-none body ok in
    rw
      (
        patch_changes-chosen t body,
        name_changed t (lookup "name" body) checks.name_ok,
        rate_changed t (lookup "rate_limit_rps" body) checks.rate_ok,
        concurrency_changed t (lookup "concurrency_limit" body) checks.concurrency_ok,
      )
      (rw (stamp-chosen _ _ _ t.updated_at (to_iso_string now)) refl)

module _ {F : Type 0} (db : Db F) (id : String) (t : Tenant)
    (found : find (has_external_id id) db.tenants ≡ some t) (body : Record) (now : ℕ)
    (ok : patch_error body ≡ none) where
  t_id : t.external_id ≡ id
  t_id = (eq_iff _ _).0 (find-eq-some (has_external_id id) db.tenants t found)

  patch_tenant-store :
      patch_tenant id body now db ≡ store_patch id t (patch_changes t body) body now db
  unfolding patch_tenant patch_checked patch_found
  patch_tenant-store = rw ok (rw found refl)

  abbrev Reads : (Reply Tenant × Db F) → Type 0
  Reads (reply, after) =
      (reply ≡ json 200 (after_patch t body now))
      × (get_tenant id after ≡ (json 200 (after_patch t body now), after))
      × ((other : String) → id ≢ other → (get_tenant other after).0 ≡ (get_tenant other db).0)

  store_patch-Reads :
      (fs : List PatchField) → patch_changes t body ≡ fs → Reads (store_patch id t fs body now db)
  unfolding store_patch get_tenant found_tenant
  store_patch-Reads [] e =
      let same = after_patch-nil t body now e in
      (rw same refl, rw (found, same) refl, λ other ne. refl)
  store_patch-Reads (f ∷ fs) e =
      let same = after_patch-cons t body now f fs e in
      let keeps : has_external_id id (patched t body now) ≡ true =
        (eq_iff _ _).1 (ap (λ x. x.external_id) (patched_lem t body now) ∙ t_id) in
      (
        rw same refl,
        rw
            (
              same,
              find-replace_first (has_external_id id) (patched t body now) db.tenants
                  (any_of_find _ db.tenants t found) keeps,
            )
            refl,
        λ other ne.
            rw
              (find-replace_first_other (has_external_id id) (has_external_id other)
                (patched t body now) db.tenants (other_id id other ne) keeps)
              (same_answer other (find (has_external_id other) db.tenants)),
      )
    where
      same_answer :
          (other : String) (o : Option Tenant)
          → (found_tenant other o (record db {
            tenants = replace_first (has_external_id id) (patched t body now) db.tenants;
          })).0
            ≡ (found_tenant other o db).0
      same_answer other none = refl
      same_answer other (some u) = refl

  pub patch_tenant-Reads :
      let after = (patch_tenant id body now db).1 in
      let u = after_patch t body now in
      ((patch_tenant id body now db).0 ≡ json 200 u)
      × (get_tenant id after ≡ (json 200 u, after))
      × ((other : String) → id ≢ other → (get_tenant other after).0 ≡ (get_tenant other db).0)
  patch_tenant-Reads = rw patch_tenant-store (store_patch-Reads (patch_changes t body) refl)

  -- A well-formed patch of a tenant that is there answers 200 with the tenant in which the fields that the body names have the
  -- body's values, the others stay, and the time of change is that of the patch exactly if one of the three values is
  -- another one than before; the tenant is then read back under its identifier, and another identifier reads as before.
  pub patch_tenant-get_tenant :
      (other : String)
      → id ≢ other
      → let after = (patch_tenant id body now db).1 in
        let u = due_patch t body now in
        ((patch_tenant id body now db).0 ≡ json 200 u)
        × (get_tenant id after ≡ (json 200 u, after))
        × ((get_tenant other after).0 ≡ (get_tenant other db).0)
  patch_tenant-get_tenant other ne =
      let (answer, read, others) = patch_tenant-Reads in
      let same = after_patch-due t body now ok in
      (rw (← same) answer, rw (← same) read, others other ne)
