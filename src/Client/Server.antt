-- ===== src/Client/Server.antt =====
-- The client over the server's own router: what each of its methods comes to.
use frost_tools.Prelude.{
  ℕ, suc, String, ◌<>◌, ◌≡◌, ap, refl, Bool, true, false, Option, none, some, List, [], ◌∷◌,
  Outcome, ok, err, panic, Method, continue, ◌>>=◌, pure, text_eq, bind, if◌then◌else◌,
}
use frost_tools.Api.{
  Uuid, LoginArgs, CreateNewSessionArgs, GetSessionInfoOutput, SendArgs, Msg, ReceiveArgs, Error,
  LowError, low_error, from_low_error,
}
use frost_tools.Frostd.State.{Env, AppState}
use frost_tools.Frostd.Server.{Request, Response, Event, Extractors, router, dispatch, run}
use frost_tools.Client.Transport.{Transport, HttpResponse, Writers, Readers}
use frost_tools.Client.Calls.{
  Link, Call, ClientError, server_error, connection_error, answer, interpret, call,
  internal_server_error,
}

-- The URLs of reqwest, axum's extractors, and what the server's outputs are as JSON texts.
pub record Codec : Type 1 where
  pub ConnectionError : Type 0
  pub JsonError : Type 0
  pub Json : Type 0
  pub null : Json
  pub empty : Json
  pub is_empty : Json → Bool
  pub writers : Writers Json
  pub readers : Readers ConnectionError JsonError Json
  pub status_error : ℕ → ConnectionError
  -- The connection closes where a handler panics, and where no route takes the request.
  pub closed : ConnectionError
  -- The path of a URL.
  pub path_of : String → String
  pub extractors : Extractors Json
  pub write_uuid : Uuid → Json
  pub write_uuids : List Uuid → Json
  pub write_info : GetSessionInfoOutput → Json
  pub write_msgs : List Msg → Json
  pub write_low_error : LowError → Json

-- The paths that the client's methods call.
abbrev pub endpoints : List String
endpoints =
    "challenge" ∷ "login" ∷ "logout" ∷ "create_new_session" ∷ "list_sessions" ∷ "get_session_info"
    ∷ "send" ∷ "receive" ∷ "close_session" ∷ []

-- The path of a URL is what follows its host.
abbrev pub Paths : Codec → String → List String → Type 0
Paths K host [] = Unit
Paths K host (name ∷ names) = (K.path_of (host <> "/" <> name) ≡ "/" <> name) × Paths K host names

-- Where the server's router takes a request.
abbrev pub route : (K : Codec) → String → K.Json → Option Request
route K url json = router K.extractors (K.path_of url) json

-- Both ends use serde_json on the same types.
pub record IsFaithful (K : Codec) (host : String) : Type 0 where
  pub paths : Paths K host endpoints
  pub login_in : (a : LoginArgs) → K.extractors.login_args (K.writers.write_login a) ≡ some a
  pub create_new_session_in :
      (a : CreateNewSessionArgs)
      → K.extractors.create_new_session_args (K.writers.write_create_new_session a) ≡ some a
  pub session_id_in :
      (id : Uuid) → K.extractors.session_id_args (K.writers.write_session_id id) ≡ some id
  pub send_in : (a : SendArgs) → K.extractors.send_args (K.writers.write_send a) ≡ some a
  pub receive_in :
      (a : ReceiveArgs) → K.extractors.receive_args (K.writers.write_receive a) ≡ some a
  pub empty_is : K.is_empty K.empty ≡ true
  pub null_is : K.is_empty K.null ≡ false
  pub unit_back : K.readers.read_unit K.null ≡ ok tt
  pub uuid_back : (u : Uuid) → K.readers.read_uuid (K.write_uuid u) ≡ ok u
  pub uuid_written : (u : Uuid) → K.is_empty (K.write_uuid u) ≡ false
  pub uuids_back : (us : List Uuid) → K.readers.read_uuids (K.write_uuids us) ≡ ok us
  pub uuids_written : (us : List Uuid) → K.is_empty (K.write_uuids us) ≡ false
  pub info_back : (i : GetSessionInfoOutput) → K.readers.read_info (K.write_info i) ≡ ok i
  pub info_written : (i : GetSessionInfoOutput) → K.is_empty (K.write_info i) ≡ false
  pub msgs_back : (ms : List Msg) → K.readers.read_msgs (K.write_msgs ms) ≡ ok ms
  pub msgs_written : (ms : List Msg) → K.is_empty (K.write_msgs ms) ≡ false
  pub low_error_back : (e : LowError) → K.readers.read_low_error (K.write_low_error e) ≡ ok e

-- The router of lib.rs takes each of the client's requests to the handler of its name.
module _ (K : Codec) (host : String) (F : IsFaithful K host) where
  pub to_challenge : route K (host <> "/" <> "challenge") K.null ≡ some Request.challenge
  unfolding router
  to_challenge = rw (F.paths.0) refl

  pub to_login :
      (a : LoginArgs)
      → route K (host <> "/" <> "login") (K.writers.write_login a) ≡ some (Request.login a)
  unfolding router
  to_login a = rw (F.paths.1.0, F.login_in a) refl

  pub to_logout : route K (host <> "/" <> "logout") K.null ≡ some Request.logout
  unfolding router
  to_logout = rw (F.paths.1.1.0) refl

  pub to_create_new_session :
      (a : CreateNewSessionArgs)
      → route K (host <> "/" <> "create_new_session") (K.writers.write_create_new_session a)
        ≡ some (Request.create_new_session a)
  unfolding router
  to_create_new_session a = rw (F.paths.1.1.1.0, F.create_new_session_in a) refl

  pub to_list_sessions :
      route K (host <> "/" <> "list_sessions") K.null ≡ some Request.list_sessions
  unfolding router
  to_list_sessions = rw (F.paths.1.1.1.1.0) refl

  pub to_get_session_info :
      (id : Uuid)
      → route K (host <> "/" <> "get_session_info") (K.writers.write_session_id id)
        ≡ some (Request.get_session_info id)
  unfolding router
  to_get_session_info id = rw (F.paths.1.1.1.1.1.0, F.session_id_in id) refl

  pub to_send :
      (a : SendArgs)
      → route K (host <> "/" <> "send") (K.writers.write_send a) ≡ some (Request.send a)
  unfolding router
  to_send a = rw (F.paths.1.1.1.1.1.1.0, F.send_in a) refl

  pub to_receive :
      (a : ReceiveArgs)
      → route K (host <> "/" <> "receive") (K.writers.write_receive a) ≡ some (Request.receive a)
  unfolding router
  to_receive a = rw (F.paths.1.1.1.1.1.1.1.0, F.receive_in a) refl

  pub to_close_session :
      (id : Uuid)
      → route K (host <> "/" <> "close_session") (K.writers.write_session_id id)
        ≡ some (Request.close_session id)
  unfolding router
  to_close_session id = rw (F.paths.1.1.1.1.1.1.1.1.0, F.session_id_in id) refl

-- The server's state, and how many requests this client has made.
pub record World (E : Env) : Type 0 where
  pub state : AppState E
  pub count : ℕ

-- `others n` is what happens at the server before the client's request `n`, `now n` and `fresh n`
-- are the time and the UUID that this request draws.
module _ (E : Env) (K : Codec) (others : ℕ → List Event) (now fresh : ℕ → ℕ) where
  open K use {ConnectionError}

  -- The handler of `send` returns `()`, which axum turns into an empty body; the others return JSON.
  unfoldable pub encode : Request → Response → K.Json
  encode (Request.send args) Response.done = K.empty
  encode request Response.done = K.null
  encode request (Response.uuid u) = K.write_uuid u
  encode request (Response.uuids us) = K.write_uuids us
  encode request (Response.session_info i) = K.write_info i
  encode request (Response.msgs ms) = K.write_msgs ms

  -- `IntoResponseError::into_response`.
  unfoldable pub into_response : Error → HttpResponse ConnectionError K.Json
  into_response e = record {
    status = internal_server_error;
    text = ok (K.write_low_error (low_error e));
  }

  unfoldable pub reply :
      Request
      → Outcome Error Response
      → Outcome ConnectionError (HttpResponse ConnectionError K.Json)
  unfolding encode into_response
  reply request (ok r) = ok (record { status = 200; text = ok (encode request r) })
  reply request (err e) = ok (into_response e)
  reply request panic = err K.closed

  -- The state at which the next request of the client arrives.
  abbrev arrival : World E → AppState E
  arrival w = run E w.state (others w.count)

  unfoldable pub serve :
      Option Request
      → Option Uuid
      → World E
      → Outcome ConnectionError (HttpResponse ConnectionError K.Json) × World E
  unfolding reply
  serve none bearer w = (err K.closed, w)
  serve (some request) bearer w =
      let (r, s) = dispatch E (now w.count) (fresh w.count) bearer request (arrival w) in
      (reply request r, record { state = s; count = suc w.count })

  abbrev pub server : Transport
  server = record {
    World = World E;
    ConnectionError = ConnectionError;
    JsonError = K.JsonError;
    Json = K.Json;
    null = K.null;
    is_empty = K.is_empty;
    writers = K.writers;
    readers = K.readers;
    post = λ url bearer json w. serve (route K url json) bearer w;
    status_error = K.status_error;
  }

  -- A handler's result, as the client has it.
  abbrev pub as_result : {A : Type 0} → Outcome Error A → Outcome (ClientError server) A
  as_result (ok a) = ok a
  as_result (err e) = err (server_error e)
  as_result panic = err (connection_error K.closed)

  -- A handler that runs at the server with the token that the client has.
  abbrev pub through :
      {A : Type 0} → (ℕ → Uuid → Option Uuid → Method Error (AppState E) A) → Call server A
  through handler l =
      let w = l.world in
      let (r, s) = handler (now w.count) (fresh w.count) l.client.access_token (arrival w) in
      (as_result r, record l { world = record { state = s; count = suc w.count } })

  -- A handler whose result is wrapped, as all are in the router.
  abbrev pub Wraps :
      {A : Type 0}
      → Method Error (AppState E) Response
      → (A → Response)
      → Method Error (AppState E) A
      → Type 0
  Wraps m c h = (s : AppState E) → m s ≡ (bind (h s).0 (λ a. ok (c a)), (h s).1)

  pub wrap_pure :
      {A : Type 0} (c : A → Response) (h : Method Error (AppState E) A)
      → Wraps (h >>= λ a. pure (c a)) c h
  wrap_pure {A} c h s = at (h s).0 (h s).1
    where
      at :
          (r : Outcome Error A) (t : AppState E)
          → ◌≡◌ {A = Outcome Error Response × AppState E}
              (continue r (λ a. pure (c a)) t)
              (bind r (λ a. ok (c a)), t)
      at (ok a) t = refl
      at (err e) t = refl
      at panic t = refl

  -- The same after a `User` extractor.
  pub wrap_after :
      {U A : Type 0} (c : A → Response) (u : Method Error (AppState E) U)
      (h : U → Method Error (AppState E) A)
      → Wraps (u >>= λ x. h x >>= λ a. pure (c a)) c (u >>= h)
  wrap_after {U} c u h s = at (u s).0 (u s).1
    where
      at :
          (r : Outcome Error U) (t : AppState E)
          → ◌≡◌ {A = Outcome Error Response × AppState E}
              (continue r (λ x. h x >>= λ a. pure (c a)) t)
              (bind (continue r h t).0 (λ a. ok (c a)), (continue r h t).1)
      at (ok x) t = wrap_pure c (h x) t
      at (err e) t = refl
      at panic t = refl

  -- What the client reads of a reply.
  module _ {A : Type 0} (host : String) (F : IsFaithful K host) (request : Request)
      (read : K.Json → Outcome K.JsonError A) (c : A → Response)
      (back : (a : A)
        → read (if K.is_empty (encode request (c a)) then K.null else encode request (c a))
          ≡ ok a) where
    answer-reply :
        (r : Outcome Error A)
        → answer server read (reply request (bind r (λ a. ok (c a)))) ≡ as_result r
    unfolding reply interpret into_response low_error from_low_error
    answer-reply (ok a) = rw (back a) refl
    answer-reply (err e) = rw (F.low_error_back (low_error e)) refl
    answer-reply panic = refl

    pub call-through :
        (name : String) (args : K.Json) (h : ℕ → Uuid → Option Uuid → Method Error (AppState E) A)
        (l : Link server)
        → route K (l.client.host_port <> "/" <> name) args ≡ some request
        → ((n : ℕ) (u : Uuid) (b : Option Uuid) → Wraps (dispatch E n u b request) c (h n u b))
        → call server read name args l ≡ through h l
    unfolding call serve
    call-through name args h l routed wraps =
        let w = l.world in
        let same = wraps (now w.count) (fresh w.count) l.client.access_token (arrival w) in
        let done = h (now w.count) (fresh w.count) l.client.access_token (arrival w) in
        rw (routed, same)
          (ap (λ x. (x, record l { world = record { state = done.1; count = suc w.count } }))
            (answer-reply done.0))
