-- ===== src/Client/Served.antt =====
-- The client over the server: each method is the handler of its endpoint.
use mathlib.Core.Path.{subst⁻¹}
use frost_tools.Prelude.{
  ℕ, String, ◌<>◌, ◌≡◌, ap, refl, Option, none, some, List, Outcome, ok, Method, continue, ◌>>=◌,
  ◌>>◌, pure, modify, text_eq, if◌then◌else◌,
}
use frost_tools.Api.{Uuid, LoginArgs, CreateNewSessionArgs, SendArgs, ReceiveArgs, Error}
use frost_tools.Frostd.State.{Env, AppState}
use frost_tools.Frostd.Functions
use frost_tools.Frostd.Server.{Request, Response, Event, dispatch}
use frost_tools.Client.Transport.{Transport}
use frost_tools.Client.Calls.{
  Link, Call, ClientError, server_error, connection_error, answer, interpret, call,
  internal_server_error,
}
use frost_tools.Client.Calls
use frost_tools.Client.Server.{
  Codec, IsFaithful, encode, server, through, wrap_pure, wrap_after, call-through, Wraps, route,
  to_challenge, to_login, to_logout, to_create_new_session, to_list_sessions, to_get_session_info,
  to_send, to_receive, to_close_session,
}

module _ (E : Env) (K : Codec) (others : ℕ → List Event) (now fresh : ℕ → ℕ) where
  abbrev T : Transport
  T = server E K others now fresh

  -- The handler of an endpoint that takes a user.
  abbrev pub as_user :
      {A : Type 0}
      → (ℕ → Uuid → Functions.User → Method Error (AppState E) A)
      → ℕ
      → Uuid
      → Option Uuid
      → Method Error (AppState E) A
  as_user h n u bearer = Functions.authenticate E bearer >>= λ user. h n u user

  and_then :
      {A B : Type 0} (f : A → Call T B) {x y : Outcome (ClientError T) A × Link T}
      → x ≡ y
      → continue x.0 f x.1 ≡ continue y.0 f y.1
  and_then f e = ap (λ x. continue x.0 f x.1) e

  user-through :
      {A : Type 0} (host : String) (F : IsFaithful K host) (request : Request)
      (read : K.Json → Outcome K.JsonError A) (c : A → Response)
      (back : (a : A)
        → read (
            if K.is_empty (encode E K others now fresh request (c a))
            then K.null
            else encode E K others now fresh request (c a))
          ≡ ok a)
      (name : String) (args : K.Json) (h : ℕ → Uuid → Functions.User → Method Error (AppState E) A)
      (l : Link T)
      → route K (l.client.host_port <> "/" <> name) args ≡ some request
      → ((n : ℕ) (u : Uuid) (b : Option Uuid)
          → dispatch E n u b request
            ≡ (Functions.authenticate E b >>= λ x. h n u x >>= λ a. pure (c a)))
      → call T read name args l ≡ through E K others now fresh (as_user h) l
  user-through {A} host F request read c back name args h l routed wraps =
      call-through E K others now fresh host F request read c back name args (as_user h) l routed
        (λ n u b.
          subst⁻¹ (λ m. Wraps E K others now fresh m c (as_user h n u b)) (wraps n u b)
            (wrap_after E K others now fresh c (Functions.authenticate E b) (h n u)))

  -- Each method of the client is the handler of its endpoint, run at the T with the token that
  -- the client keeps: a result or an error of the handler is the method's. `login` keeps the new
  -- token, and `logout` drops it, where the handler succeeds.
  pub record Serves (l : Link T) : Type 0 where
    pub challenge :
        Calls.challenge T l ≡ through E K others now fresh (λ n u b. Functions.challenge E n u) l
    pub login :
        (args : LoginArgs)
        → Calls.login T args l ≡ (
            (through E K others now fresh (λ n u b. Functions.login E n u args) >>= λ token.
            modify (Calls.set_token T (some token)) >> pure token)
              l)
    pub logout : Calls.logout T l ≡ (
        (through E K others now fresh (as_user (λ n u user. Functions.logout E user))
            >> modify (Calls.set_token T none))
          l)
    pub create_new_session :
        (args : CreateNewSessionArgs)
        → Calls.create_new_session T args l
          ≡ through E K others now fresh
              (as_user (λ n u user. Functions.create_new_session E n u user args))
              l
    pub list_sessions :
        Calls.list_sessions T l
        ≡ through E K others now fresh (as_user (λ n u user. Functions.list_sessions E user)) l
    pub get_session_info :
        (id : Uuid)
        → Calls.get_session_info T id l
          ≡ through E K others now fresh
              (as_user (λ n u user. Functions.get_session_info E user id))
              l
    pub send :
        (args : SendArgs)
        → Calls.send T args l
          ≡ through E K others now fresh (as_user (λ n u user. Functions.send E n user args)) l
    pub receive :
        (args : ReceiveArgs)
        → Calls.receive T args l
          ≡ through E K others now fresh (as_user (λ n u user. Functions.receive E n user args)) l
    pub close_session :
        (id : Uuid)
        → Calls.close_session T id l
          ≡ through E K others now fresh (as_user (λ n u user. Functions.close_session E user id)) l

  -- Each method of the client is the handler of its endpoint, run at the server with the token that
  -- the client keeps, whatever others do between the requests: a result or an error of the handler is
  -- the method's. `login` keeps the new token, and `logout` drops it, where the handler succeeds.
  pub client_lem : (l : Link T) → IsFaithful K l.client.host_port → Serves l
  unfolding Calls.challenge Calls.login Calls.logout Calls.create_new_session Calls.list_sessions
      Calls.get_session_info Calls.send Calls.receive Calls.close_session dispatch encode
  client_lem l F =
      let host = l.client.host_port in
      record {
        challenge =
            call-through E K others now fresh host F Request.challenge K.readers.read_uuid
              Response.uuid (λ x. rw (F.uuid_written x, F.uuid_back x) refl) "challenge" K.null
              (λ n u b. Functions.challenge E n u) l (to_challenge K host F)
              (λ n u b. wrap_pure E K others now fresh Response.uuid (Functions.challenge E n u));
        login = λ args.
            and_then (λ token. modify (Calls.set_token T (some token)) >> pure token)
              (call-through E K others now fresh host F (Request.login args) K.readers.read_uuid
                Response.uuid (λ x. rw (F.uuid_written x, F.uuid_back x) refl) "login"
                (K.writers.write_login args) (λ n u b. Functions.login E n u args) l
                (to_login K host F args)
                (λ n u b.
                  wrap_pure E K others now fresh Response.uuid (Functions.login E n u args)));
        logout =
            and_then (λ x. modify (Calls.set_token T none))
              (user-through host F Request.logout K.readers.read_unit (λ x. Response.done)
                (λ u. rw F.null_is F.unit_back) "logout" K.null
                (λ n u user. Functions.logout E user) l (to_logout K host F) (λ n u b. refl));
        create_new_session = λ args.
            user-through host F (Request.create_new_session args) K.readers.read_uuid
              (Response.uuid) (λ x. rw (F.uuid_written x, F.uuid_back x) refl) "create_new_session"
              (K.writers.write_create_new_session args)
              (λ n u user. Functions.create_new_session E n u user args) l
              (to_create_new_session K host F args) (λ n u b. refl);
        list_sessions =
            user-through host F (Request.list_sessions) K.readers.read_uuids (Response.uuids)
              (λ x. rw (F.uuids_written x, F.uuids_back x) refl) "list_sessions" K.null
              (λ n u user. Functions.list_sessions E user) l (to_list_sessions K host F)
              (λ n u b. refl);
        get_session_info = λ id.
            user-through host F (Request.get_session_info id) K.readers.read_info
              (Response.session_info) (λ x. rw (F.info_written x, F.info_back x) refl)
              "get_session_info" (K.writers.write_session_id id)
              (λ n u user. Functions.get_session_info E user id) l (to_get_session_info K host F id)
              (λ n u b. refl);
        send = λ args.
            user-through host F (Request.send args) K.readers.read_unit (λ x. Response.done)
              (λ u. rw F.empty_is F.unit_back) "send" (K.writers.write_send args)
              (λ n u user. Functions.send E n user args) l (to_send K host F args) (λ n u b. refl);
        receive = λ args.
            user-through host F (Request.receive args) K.readers.read_msgs (Response.msgs)
              (λ x. rw (F.msgs_written x, F.msgs_back x) refl) "receive"
              (K.writers.write_receive args) (λ n u user. Functions.receive E n user args) l
              (to_receive K host F args) (λ n u b. refl);
        close_session = λ id.
            user-through host F (Request.close_session id) K.readers.read_unit (λ x. Response.done)
              (λ u. rw F.null_is F.unit_back) "close_session" (K.writers.write_session_id id)
              (λ n u user. Functions.close_session E user id) l (to_close_session K host F id)
              (λ n u b. refl);
      }
