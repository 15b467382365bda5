-- ===== src/Http/Loopback.antt =====
-- internal/worker/httpapi: a call of the client through the server.
use sandbox_fleet.Base.{
  ℕ, ◌≤◌, String, false, ◌≡◌, refl, ap, ◌∙◌, some, none, string_key, nat_key, arith,
}
use sandbox_fleet.Base.Int.{ℤ, pos, int_key}
use sandbox_fleet.Base.Text.{decimal_int}
use sandbox_fleet.Base.Result.{Result, ok, err}
use sandbox_fleet.Base.Action.{Action, continue, lift, ◌>>=◌}
use sandbox_fleet.Worker.Types.{Identity, SlotRef, StartRequest, ContainerSpec}
use sandbox_fleet.Controller.Objects.{Error, http}
use sandbox_fleet.Http.Wire.{Wire, Codec, Errors, json, Request, Response, Manager}
use sandbox_fleet.Http.Server.{
  Handler, no_content, decode_request, decoded, path_slot_id, slot_of_path, match_slot_id,
  answer_done, on_ref, reserve_slot, start_sandbox, stop_sandbox, release_slot,
}
use sandbox_fleet.Http.Client.{
  Transport, slot_url, read_nothing, do_nothing, reserve_slot as call_reserve,
  start_sandbox as call_start, stop_sandbox as call_stop, release_slot as call_release,
}
use sandbox_fleet.Http.Numbers.{parse_int32-decimal}
use sandbox_fleet.Http.Retrying.{IsReadBack, status_and_code, seen_by_client-write_manager_error}

-- A request of the client as the server gets it.
abbrev pub post : {J B : Type 0} → ℤ → J → Request J B
post id text = record {
  path_slot = decimal_int id;
  query = λ key. "";
  body = json text;
  has_form = false;
  form_file = none;
}

abbrev pub deliver : {W J B : Type 0} → W × Response J B → W × Result Error (Response J B)
deliver (w, r) = (w, ok r)

module _ {J W A B E : Type 0} (wire : Wire J A) (errors : Errors E)
    (manager : Manager W A B E) where
  -- The transport carries a POST request below a slot to its handler, and the response back.
  abbrev pub IsRouted : Transport W J B → String → ℤ → String → Handler wire errors manager → Type 0
  IsRouted t endpoint id action handler =
      (text : J) (w : W)
      → t.send
          (record {
            method = "POST";
            url = slot_url endpoint id action;
            body = json text;
            file_name = "";
          })
          w
        ≡ deliver (handler (post id text) w)

  -- It does so for the requests below one slot of a worker.
  pub record Serves (t : Transport W J B) (endpoint : String) (id : ℤ) : Type 0 where
    pub reserve : IsRouted t endpoint id "reserve" (reserve_slot wire errors manager)
    pub start : IsRouted t endpoint id "start" (start_sandbox wire errors manager)
    pub stop : IsRouted t endpoint id "stop" (stop_sandbox wire errors manager)
    pub release : IsRouted t endpoint id "release" (release_slot wire errors manager)

  -- What the client makes of the manager's answer.
  abbrev pub through : W × Result E (Unit {0}) → W × Result Error (Unit {0})
  through (w, ok _) = (w, ok tt)
  through (w, err e) = (
    w,
    err (http (status_and_code errors e).0 (status_and_code errors e).1 (errors.error_message e)),
  )

  module _ (t : Transport W J B) (error_read : IsReadBack wire.error) where
    abbrev back : W × Response J B → W × Result Error (Unit {0})
    back (w, r) = (w, read_nothing wire.error t.status_text r)

    back-answer_done : (x : W × Result E (Unit {0})) → back (answer_done wire errors x) ≡ through x
    unfolding answer_done no_content read_nothing
    back-answer_done (w, ok _) = refl
    back-answer_done (w, err e) =
        ap (λ r. (w, r))
          ((seen_by_client-write_manager_error B wire errors t.status_text error_read e).0)

    path_slot_id-post :
        (n : ℕ) (text : J)
        → n ≤ 2147483647
        → path_slot_id (post {B = B} (pos n) text) ≡ some (pos n)
    unfolding path_slot_id decimal_int slot_of_path
    path_slot_id-post n text b = rw (parse_int32-decimal n b) refl

    -- A request that names the slot of its path is handled by its call.
    handled :
        {T : Type 0} (codec : Codec J T) (read : IsReadBack codec) (slot : T → ℤ)
        (call : T → Action W E (Unit {0})) (x : T) (n : ℕ) (w : W)
        → slot x ≡ pos n
        → n ≤ 2147483647
        → decoded {B = B} wire errors
            (decode_request {B = B} codec (json (read.text x)))
            (λ req.
              match_slot_id wire errors
                (path_slot_id (post {B = B} (slot x) (read.text x)))
                (slot req)
                (λ v. answer_done wire errors (call req v)))
            w
          ≡ answer_done wire errors (call x w)
    unfolding decoded decode_request match_slot_id int_key
    handled codec read slot call x n w e b =
        rw (read.reads x) (rw e (rw (path_slot_id-post n (read.text x) b) (ground arith)))

    -- What `do` makes of the answer of a handler.
    do_nothing-back :
        (method url : String) (text : J) (w : W) (x : W × Response J B)
        → t.send (record { method = method; url = url; body = json text; file_name = "" }) w
          ≡ deliver x
        → do_nothing wire t method url (some text) w ≡ back x
    unfolding do_nothing lift ◌>>=◌
    do_nothing-back method url text w x e = ap (λ r. continued r) e
      where
        continued : W × Result Error (Response J B) → W × Result Error (Unit {0})
        continued r =
            continue r.1 (λ response. lift (read_nothing wire.error t.status_text response)) r.0

    ref_call-through :
        (endpoint action : String) (call : SlotRef → Action W E (Unit {0})) (ref : SlotRef) (n : ℕ)
        (w : W)
        → IsReadBack wire.slot_ref
        → IsRouted t endpoint ref.slot_id action (on_ref wire errors manager call)
        → ref.slot_id ≡ pos n
        → n ≤ 2147483647
        → do_nothing wire t "POST"
            (slot_url endpoint ref.slot_id action)
            (wire.slot_ref.encode ref)
            w
          ≡ through (call ref w)
    unfolding on_ref
    ref_call-through endpoint action call ref n w read routed e b =
        ap (λ body. do_nothing wire t "POST" (slot_url endpoint ref.slot_id action) body w)
          (read.writes ref)
        ∙ do_nothing-back "POST" (slot_url endpoint ref.slot_id action) (read.text ref) w _
            (routed (read.text ref) w)
        ∙ ap back (handled wire.slot_ref read (λ (r : SlotRef). r.slot_id) call ref n w e b)
        ∙ back-answer_done (call ref w)

    start_call-through :
        (endpoint : String) (req : StartRequest) (n : ℕ) (w : W)
        → IsReadBack wire.start
        → IsRouted t endpoint req.slot_id "start" (start_sandbox wire errors manager)
        → req.slot_id ≡ pos n
        → n ≤ 2147483647
        → call_start wire t endpoint req w ≡ through (manager.start_sandbox req w)
    unfolding call_start start_sandbox
    start_call-through endpoint req n w read routed e b =
        ap (λ body. do_nothing wire t "POST" (slot_url endpoint req.slot_id "start") body w)
          (read.writes req)
        ∙ do_nothing-back "POST" (slot_url endpoint req.slot_id "start") (read.text req) w _
            (routed (read.text req) w)
        ∙ ap back (
            handled wire.start read (λ (r : StartRequest). r.slot_id) manager.start_sandbox req n w
              e b)
        ∙ back-answer_done (manager.start_sandbox req w)

    -- A call of the client to reserve, start, stop or release a slot, whose id is no negative int32, is
    -- through the server the call of the manager: the same changes, and its answer, an error with the
    -- status and the code that are known for it. The transport carries the requests to their handlers
    -- and the responses back, and JSON is read back.
    pub calls-through :
        (endpoint : String) (n : ℕ) (identity : Identity) (container : ContainerSpec) (w : W)
        → n ≤ 2147483647
        → IsReadBack wire.slot_ref
        → IsReadBack wire.start
        → Serves t endpoint (pos n)
        → let ref : SlotRef = record { slot_id = pos n; identity = identity } in
          let req : StartRequest = record {
            slot_id = pos n;
            identity = identity;
            container = container;
          } in
          (call_reserve wire t endpoint ref w ≡ through (manager.reserve_slot ref w))
          × (call_start wire t endpoint req w ≡ through (manager.start_sandbox req w))
          × (call_stop wire t endpoint ref w ≡ through (manager.stop_sandbox ref w))
          × (call_release wire t endpoint ref w ≡ through (manager.release_slot ref w))
    unfolding call_reserve call_stop call_release reserve_slot stop_sandbox release_slot
    calls-through endpoint n identity container w b read start_read serves = (
      ref_call-through endpoint "reserve" manager.reserve_slot _ n w read serves.reserve refl b,
      start_call-through endpoint _ n w start_read serves.start refl b,
      ref_call-through endpoint "stop" manager.stop_sandbox _ n w read serves.stop refl b,
      ref_call-through endpoint "release" manager.release_slot _ n w read serves.release refl b,
    )
