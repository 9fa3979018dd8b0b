-- ===== src/Commands/Sessions/Visits.antt =====
-- What the loop over the sessions has seen when it ends well.
use frost_tools.Prelude.{
  ℕ, suc, ◌≡◌, refl, sym, ◌∙◌, ap, String, Bool, true, false, not, List, [], ◌∷◌, length, get_elem?,
  EachAt, EachAt-nil, EachAt-cons, Outcome, ok, ◌>>=◌, pure, unless, some,
}
use frost_tools.Prelude.Contracts.{Ensures, ensures_then, ensures_pure, ensures_weaker}
use frost_tools.Api.{Uuid, GetSessionInfoOutput}
use frost_tools.Client.Transport.{Transport}
use frost_tools.Client.Calls.{Link, Client, Call, call, get_session_info, close_session}
use frost_tools.Config.File.{Config}
use frost_tools.Commands.Sessions.{Summary, summary, visit}

module _ (T : Transport) (config : Config) (close_all : Bool) (client : Client) where
  -- A call that has returned `a`, by this client.
  abbrev pub Answered : {A : Type 0} → Call T A → A → Type 0
  Answered m a =
      (before : Link T) × (after : Link T) × (before.client ≡ client) × (m before ≡ (ok a, after))

  -- The session was asked for, and is closed if all are to be closed.
  unfoldable pub Visited : Uuid → Summary → Type 0
  Visited id row =
      (info : GetSessionInfoOutput) × (row ≡ summary config id info)
      × Answered (get_session_info T id) info
      × (close_all ≡ true → Answered (close_session T id) tt)

  abbrev OfClient : Link T → Type 0
  OfClient l = l.client ≡ client

  -- A call keeps the client.
  answers :
      {A Fact : Type 0} (m : Call T A)
      → ((l : Link T) → (m l).1.client ≡ l.client)
      → Ensures (λ l. Fact × OfClient l) m (λ a l. (Fact × Answered m a) × OfClient l)
  answers m keeps = record {
    ensured = λ l h a k e.
        let kept : k.client ≡ client = ap (λ x. x.1.client) (sym e) ∙ keeps l ∙ h.1 in
        ((h.0, (l, k, h.1, e)), kept);
  }

  call-client :
      {A : Type 0} (read : T.Json → Outcome T.JsonError A) (name : String) (args : T.Json)
      (l : Link T)
      → (call T read name args l).1.client ≡ l.client
  unfolding call
  call-client read name args l = refl

  closing :
      {Fact : Type 0} (b : Bool) (id : Uuid)
      → Ensures
          (λ l. Fact × OfClient l)
          (unless (not b) (close_session T id))
          (λ u l. (Fact × (b ≡ true → Answered (close_session T id) tt)) × OfClient l)
  unfolding close_session
  closing true id = record {
    ensured = λ l h u k e.
        let ((fact, done), kept) =
          (answers (close_session T id) (
              call-client T.readers.read_unit "close_session"
                (T.writers.write_session_id id))).ensured
            l h u k e in
        ((fact, λ all. done), kept);
  }
  closing false id = ensures_pure tt (λ l h. ((h.0, λ all. cc), h.1))

  abbrev pub VisitedAt : List Uuid → ℕ → Summary → Type 0
  VisitedAt ids j row = (id : Uuid) × (get_elem? ids j ≡ some id) × Visited id row

  abbrev pub AllVisited : List Uuid → List Summary → Link T → Type 0
  AllVisited ids rows l = (length rows ≡ length ids) × EachAt (VisitedAt ids) rows

  adding :
      (id : Uuid) (ids : List Uuid) (row : Summary)
      → Visited id row
      → Ensures OfClient (visit T config close_all ids) (AllVisited ids)
      → Ensures OfClient
          (visit T config close_all ids >>= λ rest. pure (row ∷ rest))
          (AllVisited (id ∷ ids))
  adding id ids row seen others = ensures_then others (λ rest.
      ensures_pure (row ∷ rest)
        (λ l h. (ap suc h.0, EachAt-cons (VisitedAt (id ∷ ids)) row rest (id, refl, seen) h.1)))

  pub visit-Visited :
      (ids : List Uuid) → Ensures OfClient (visit T config close_all ids) (AllVisited ids)
  unfolding visit get_session_info Visited
  visit-Visited [] = ensures_pure [] (λ l h. (refl, EachAt-nil (VisitedAt [])))
  visit-Visited (id ∷ ids) =
      ensures_then
        (ensures_weaker (λ l h. (tt, h))
          (answers {Fact = Unit {0}} (get_session_info T id)
            (call-client T.readers.read_info "get_session_info" (T.writers.write_session_id id))))
        (λ info. ensures_then (closing close_all id) (λ u. record {
          ensured = λ l h rows k e.
              let (((start, asked), closed), kept) = h in
              (adding id ids (summary config id info) (info, refl, asked, closed)
                  (visit-Visited ids)).ensured
                l kept rows k e;
        }))
