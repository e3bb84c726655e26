-- ===== src/Gate/Sign.antt =====
-- web/src/features/console-session/ui: session-gate.tsx, the form that asks for a token, and the gates of the two
-- consoles. The state is that of the component, with the console's token; a rendered form is a record of what it
-- shows, without its classes.
pub mod Laws
use wasm_hooks.Common.{
  ℕ, String, Bool, true, false, not, ◌||◌, List, [], ◌∷◌, Option, none, some, is_some,
  if◌then◌else◌,
}
use wasm_hooks.Text.{is_empty, trim}
use wasm_hooks.Api.Client.{Thrown}
use wasm_hooks.Api.Session.{Storage, clear_token, get_token, tenant}
use wasm_hooks.Gate.Jwt.{Codec, is_jwt_expired}
use wasm_hooks.Gate.Errors.{describe_error, is_status}
use wasm_hooks.Gate.Fragment.{SearchParams, Location, adopt_token_from_fragment}

-- `Props`, less the children; `verifies` is whether there is a `verify`.
pub record GateProps : Type 0 where
  pub title : String
  pub description : String
  pub label : String
  pub verifies : Bool
  pub rejected_message : Option String

-- The state: the text of the input, the complaint, the token under check, if there is one, and the console's token.
pub record GateState : Type 0 where
  pub value : String
  pub error : Option String
  pub checking : Option String
  pub token : Option String

-- What happens to a gate: typing, a submit, and the end of the check with what `verify` threw; and to the console's
-- token meanwhile: `adoptTokenFromFragment`, which the gate of the tenants calls when it is mounted and at each
-- `hashchange`, with the token that the address has, and `clearToken`, at the end of a session, a 401 or a sign-out.
pub data GateEvent : Type 0 where
  typed : String → GateEvent
  submitted : GateEvent
  verified : Option Thrown → GateEvent
  adopted : Option String → GateEvent
  cleared : GateEvent

-- `rejectedMessage = "Токен не подошёл"`
abbrev pub rejection : Option String → String
rejection none = "Токен не подошёл"
rejection (some message) = message

complaint : Option String → Thrown → String
complaint rejected e = if is_status 401 e then rejection rejected else describe_error e

-- `onSubmit` up to the check,
unfoldable pub on_submit : Bool → GateState → GateState
unfolding trim
on_submit verifies s =
    let candidate = trim s.value in
    if is_empty candidate
    then s
    else if verifies
    then record s { error = none; checking = some candidate }
    else record s { error = none; token = some candidate }

-- and after it.
pub after_verify : Option String → String → Option Thrown → GateState → GateState
unfolding complaint
after_verify rejected candidate none s = record s { checking = none; token = some candidate }
after_verify rejected candidate (some e) s = record s {
  error = some (complaint rejected e);
  checking = none;
}

unfoldable pub on_verified : Option String → Option String → Option Thrown → GateState → GateState
unfolding after_verify
on_verified rejected none thrown s = s
on_verified rejected (some candidate) thrown s = after_verify rejected candidate thrown s

-- The token of the address, which nothing checks, takes the place of the one before.
pub adopt_token : Option String → GateState → GateState
adopt_token none s = s
adopt_token (some token) s = record s { token = some token }

-- The form sends nothing while a check runs: its button is disabled.
unfoldable pub gate_step : GateProps → GateEvent → GateState → GateState
unfolding on_submit on_verified adopt_token
gate_step p (typed s) state = record state { value = s; error = none }
gate_step p submitted state =
    let next = on_submit p.verifies state in if is_some state.checking then state else next
gate_step p (verified thrown) state = on_verified p.rejected_message state.checking thrown state
gate_step p (adopted token) state = adopt_token token state
gate_step p cleared state = record state { token = none }

unfoldable pub gate_run : GateProps → List GateEvent → GateState → GateState
gate_run p [] s = s
gate_run p (e ∷ es) s = gate_run p es (gate_step p e s)

-- What the gate shows: nothing on the server, the console, or the form.
pub record SignIn : Type 0 where
  pub title : String
  pub description : String
  pub label : String
  pub value : String
  pub alert : Option String
  pub is_disabled : Bool
  pub button : String

pub data GateView : Type 0 where
  blank : GateView
  console : GateView
  sign_in : SignIn → GateView

sign_in_form : GateProps → GateState → SignIn
unfolding trim
sign_in_form p s = record {
  title = p.title;
  description = p.description;
  label = p.label;
  value = s.value;
  alert = s.error;
  is_disabled = is_empty (trim s.value) || is_some s.checking;
  button = if is_some s.checking then "Проверка…" else "Войти";
}

pub gate_view_of : GateProps → Option String → GateState → GateView
unfolding sign_in_form
gate_view_of p none s = sign_in (sign_in_form p s)
gate_view_of p (some token) s = console

-- `SessionGate` in a browser.
unfoldable pub gate_view : GateProps → GateState → GateView
unfolding gate_view_of
gate_view p s = gate_view_of p s.token s

-- `OperatorSessionGate`
abbrev pub operator_gate : GateProps
operator_gate = record {
  title = "Вход в консоль оператора";
  description =
      "Ключ установки даёт полный доступ к установке. Вводите его только на своём компьютере.";
  label = "Ключ установки";
  verifies = true;
  rejected_message = some "Ключ не подошёл";
}

-- `TenantSessionGate`
abbrev pub tenant_gate : GateProps
tenant_gate = record {
  title = "Сессия консоли не начата или истекла";
  description = "Откройте консоль заново из магазина.";
  label = "Токен консоли тенанта";
  verifies = true;
  rejected_message = none;
}

module _ {S : Type 0} (storage : Storage S) (codec : Codec) where
  pub drop_expired : Option String → ℕ → Option S → Option S
  unfolding is_jwt_expired clear_token
  drop_expired none now s = s
  drop_expired (some token) now s =
      let cleared = clear_token storage tenant s in
      if is_jwt_expired codec token now then cleared else s

  -- The effect of `TenantSessionGate` when it is mounted: the token of the address is taken, and an expired one dropped.
  unfoldable pub mount_tenant_gate : SearchParams → Location → ℕ → Option S → Option S × Location
  unfolding drop_expired get_token adopt_token_from_fragment
  mount_tenant_gate url at now s =
      let (s', at') = adopt_token_from_fragment storage url at s in
      (drop_expired (get_token storage tenant s') now s', at')
