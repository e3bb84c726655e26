-- ===== src/Dialog/Upload/Laws.antt =====
-- What the dialog sends.
use wasm_hooks.Common.{
  String, Bool, true, false, ◌≡◌, refl, sym, subst, List, [], ◌∷◌, Option, none, some, any, All,
  if◌then◌else◌, Bool-cases, inl, inr, arith,
}
use wasm_hooks.Api.Client.{Thrown}
use wasm_hooks.Mock.Modules.{File}
use wasm_hooks.Upload.{check_wasm_file, is_upload_unconfirmed}
use wasm_hooks.Dialog.Shown.{DialogView, offers}
use wasm_hooks.Dialog.Upload.{
  UploadProps, UploadStep, pick, picked, unconfirmed, UploadState, UploadEvent, opened, closed,
  choose_file, submitted, back, chosen, uploaded, refused, closed_dialog, change_open, checked,
  on_file_chosen, start, submit, on_error, upload_view, step_view, pick_view, picked_view,
  send_button, can_submit, upload_step, upload_run,
}

-- A file, if there is one, that the check lets through.
abbrev pub Passes : Option File → Type 0
Passes none = Unit
Passes (some f) = check_wasm_file f ≡ none

checked-Passes :
    (o : Option String) (f : File) (s : UploadState)
    → check_wasm_file f ≡ o
    → Passes (checked o f s).file
unfolding checked
checked-Passes none f s h = h
checked-Passes (some problem) f s h = tt

on_file_chosen-Passes :
    (o : Option File) (s : UploadState) → Passes s.file → Passes (on_file_chosen o s).file
unfolding on_file_chosen
on_file_chosen-Passes none s h = h
on_file_chosen-Passes (some f) s h = checked-Passes (check_wasm_file f) f s refl

start-Passes : (o : Option File) (s : UploadState) → Passes s.file → Passes (start o s).file
unfolding start
start-Passes none s h = h
start-Passes (some f) s h = h

-- A test between two states that pass.
chosen-Passes :
    (b : Bool) (s t : UploadState)
    → Passes s.file
    → Passes t.file
    → Passes (if b then s else t).file
chosen-Passes true s t h k = h
chosen-Passes false s t h k = k

change_open-Passes :
    (next : Bool) (s : UploadState) → Passes s.file → Passes (change_open next s).file
unfolding change_open
change_open-Passes next s h =
    chosen-Passes s.is_pending s _ h
      (chosen-Passes next (record s { is_open = true }) closed_dialog h tt)

on_error-Passes : (e : Thrown) (s : UploadState) → Passes s.file → Passes (on_error e s).file
unfolding on_error
on_error-Passes e s h = chosen-Passes (is_upload_unconfirmed e) _ _ h h

upload_step-Passes :
    (e : UploadEvent) (s : UploadState)
    → Passes s.file
    → Passes (upload_step e s).0.file × Passes (upload_step e s).1
unfolding upload_step submit
upload_step-Passes opened s h = (change_open-Passes true s h, tt)
upload_step-Passes closed s h = (change_open-Passes false s h, tt)
upload_step-Passes back s h = (change_open-Passes false s h, tt)
upload_step-Passes choose_file s h = (h, tt)
upload_step-Passes (chosen f) s h = (on_file_chosen-Passes f s h, tt)
upload_step-Passes submitted s h = elim (Bool-cases (can_submit s)) [
  | inl may ↦ rw may (start-Passes s.file s h, h)
  | inr cannot ↦ rw cannot (h, tt)
]
upload_step-Passes uploaded s h = (chosen-Passes s.is_pending closed_dialog s tt h, tt)
upload_step-Passes (refused e) s h =
    (chosen-Passes s.is_pending (on_error e s) s (on_error-Passes e s h) h, tt)

-- Whatever happens to the dialog, from any state whose file passed the check, each file that it sends passed the check.
pub upload_run-Passes :
    (es : List UploadEvent) (s : UploadState) → Passes s.file → All Passes (upload_run es s).1
unfolding upload_run
upload_run-Passes [] s h = tt
upload_run-Passes (e ∷ es) s h =
    let (kept, sent) = upload_step-Passes e s h in
    (sent, upload_run-Passes es (upload_step e s).0 kept)

-- An event that neither closes the dialog nor chooses another file.
abbrev pub Stays : UploadEvent → Type 0
Stays closed = ⊥
Stays back = ⊥
Stays (chosen (some f)) = ⊥
Stays _ = Unit

-- A state whose upload has had no answer that settles it.
abbrev pub IsOpenEnded : UploadState → Type 0
IsOpenEnded s = (s.step ≡ unconfirmed) × (s.is_pending ≡ false)

can_submit-unconfirmed : (s : UploadState) → s.step ≡ unconfirmed → can_submit s ≡ false
unfolding can_submit
can_submit-unconfirmed s u = rw u (ground arith)

-- A test that fails leaves the state.
unless :
    (b : Bool) (t s : UploadState) → b ≡ false → IsOpenEnded s → IsOpenEnded (if b then t else s)
unless b t s e h = subst (λ c. IsOpenEnded (if c then t else s)) (sym e) h

reopened : (s : UploadState) → IsOpenEnded s → IsOpenEnded (change_open true s)
unfolding change_open
reopened s h = subst (λ c. IsOpenEnded (if c then s else record s { is_open = true })) (sym (h.1)) h

upload_step-IsOpenEnded :
    (e : UploadEvent) (s : UploadState)
    → Stays e
    → IsOpenEnded s
    → IsOpenEnded (upload_step e s).0 × ((upload_step e s).1 ≡ none)
unfolding upload_step on_file_chosen
upload_step-IsOpenEnded opened s h u = (reopened s u, refl)
upload_step-IsOpenEnded closed s h u = elim h [ ]
upload_step-IsOpenEnded back s h u = elim h [ ]
upload_step-IsOpenEnded choose_file s h u = (u, refl)
upload_step-IsOpenEnded (chosen none) s h u = (u, refl)
upload_step-IsOpenEnded (chosen (some f)) s h u = elim h [ ]
upload_step-IsOpenEnded submitted s h u = rw (can_submit-unconfirmed s u.0) (u, refl)
upload_step-IsOpenEnded uploaded s h u = (unless s.is_pending closed_dialog s u.1 u, refl)
upload_step-IsOpenEnded (refused e) s h u = (unless s.is_pending (on_error e s) s u.1 u, refl)

-- After an upload without a clear answer nothing is sent until the dialog has been closed or a file has been chosen anew.
pub upload_run-unconfirmed :
    (es : List UploadEvent) (s : UploadState)
    → All Stays es
    → IsOpenEnded s
    → All (λ sent. sent ≡ none) (upload_run es s).1
unfolding upload_run
upload_run-unconfirmed [] s h u = tt
upload_run-unconfirmed (e ∷ es) s (stays, h) u =
    let (kept, sent) = upload_step-IsOpenEnded e s stays u in
    (sent, upload_run-unconfirmed es (upload_step e s).0 h kept)

abbrev pub is_submitted : UploadEvent → Bool
is_submitted submitted = true
is_submitted _ = false

-- What the shown dialog offers.
abbrev pub offered : Option (DialogView UploadEvent) → List UploadEvent
offered none = []
offered (some v) = offers v

-- The dialog shows an enabled button that sends exactly where a submit sends the file: an open dialog with a file that
-- is picked, no complaint and no upload under way.
pub offered-can_submit :
    (p : UploadProps) (s : UploadState)
    → any is_submitted (offered (upload_view p s)) ≡ can_submit s
unfolding upload_view step_view pick_view picked_view send_button can_submit
offered-can_submit p s = go s.is_open s.step s.file s.error s.is_pending
  where
    go :
        (o : Bool) (t : UploadStep) (f : Option File) (e : Option String) (b : Bool)
        → any is_submitted (
            offered (
              upload_view p
                (record { is_open = o; step = t; file = f; error = e; is_pending = b })))
          ≡ can_submit (record { is_open = o; step = t; file = f; error = e; is_pending = b })
    go false t f e b = refl
    go true pick f e b = refl
    go true unconfirmed f e b = refl
    go true picked none e b = refl
    go true picked (some f) (some e) true = refl
    go true picked (some f) (some e) false = refl
    go true picked (some f) none true = refl
    go true picked (some f) none false = refl
