-- ===== src/Dealer/Deals.antt =====
-- What a trusted dealer has made when it returns shares.
use frost_tools.Prelude.{
  some, none, suc, length, get_elem?, List, String, Option, sym, ◌∙◌, ◌>>◌, ok_or, Bool-cases,
  ok_or-ok, if◌then◌else◌, ◌≤◌, ◌≡◌, refl, ap, ◌⊎◌, inl, inr, Bool, true, false, [], ◌∷◌, Map,
  EachAt, EachAt-nil, EachAt-cons, is_empty, Outcome, ok, err, panic, bind-eq-ok, Method, ◌>>=◌,
  pure, lift, arith,
}
use mathlib.Core.Path.{subst⁻¹}
use frost_tools.Prelude.Contracts.{
  continue-eq-ok, Ensures, ensures_then, ensures_pure, ensures_weaker, ensures_both, ensures_lift,
  ensures_fact,
}
use frost_tools.Dealer.{
  Dealing, Dealt, DealerError, Args, DealerConfig, validate_inputs, raise, raised, ask_config,
  args_config, or_blank, malformed_signing_key, io_error, ask, shares_into_even_y, into_even_y,
  request_inputs, check_shares, Shares, trusted_dealer_keygen, split_secret, trusted_dealer, deal,
}

-- The numbers of signers that a dealer accepts.
unfoldable pub Accepted : DealerConfig → Type 0
Accepted config = (2 ≤ config.min_signers) × (config.min_signers ≤ config.max_signers)

-- The check of the inputs lets exactly these pass.
pub validate_inputs_lem :
    {I F : Type 0} (config : DealerConfig) (u : Unit {0})
    → validate_inputs {I = I} {F = F} config ≡ ok u
    → Accepted config
unfolding validate_inputs Accepted
validate_inputs_lem config u h = ground arith

raise-ok : {E F A : Type 0} (f : E → F) (r : Outcome E A) (a : A) → raise f r ≡ ok a → r ≡ ok a
raise-ok f (ok b) a h = let same : b ≡ a = cc in ap ok same
raise-ok f (err e) a h = cc
raise-ok f panic a h = cc

raised-Ensures :
    {E F S A : Type 0} {P : S → Type 0} {Q : A → S → Type 0} (f : E → F) (m : Method E S A)
    → Ensures P m Q
    → Ensures P (raised f m) Q
raised-Ensures f m h = record {
  ensured = λ s p a t e. h.ensured s p a t (
      let r = raise-ok f (m s).0 a (ap (λ x. x.0) e) in
      let same : (m s).1 ≡ t = ap (λ x. x.1) e in rw (r, same) refl);
}

module _ (D : Dealing) where
  open D use {World, Identifier, SecretShare}

  -- Each share makes a key package.
  unfoldable pub Checked : Map Identifier SecretShare → Type 0
  Checked shares = EachAt (λ j kv. (u : Unit {0}) × (D.key_package kv.1 ≡ ok u)) shares

  check_shares-Checked :
      (shares : Map Identifier SecretShare) (u : Unit {0})
      → check_shares D shares ≡ ok u
      → Checked shares
  unfolding check_shares Checked
  check_shares-Checked [] u h = EachAt-nil (λ j kv. (v : Unit {0}) × (D.key_package kv.1 ≡ ok v))
  check_shares-Checked (first ∷ shares) u h =
      let (v, one, rest) = bind-eq-ok (D.key_package first.1) (λ x. check_shares D shares) h in
      EachAt-cons (λ j kv. (w : Unit {0}) × (D.key_package kv.1 ≡ ok w)) first shares (v, one)
        (check_shares-Checked shares u rest)

  -- Prompts are written and lines read in turn; before a line, the prompt may change the world.
  abbrev pub Answers : World → List String → World → Type 0
  Answers s [] t = s ≡ t
  Answers s (line ∷ lines) t =
      (prompt : String) × (u : World) × (v : World) × (D.write_line prompt s ≡ (ok tt, u))
      × (D.read_line u ≡ (ok line, v))
      × Answers v lines t

  -- The shares come from a new key, or from the given one.
  abbrev pub Origin : DealerConfig → Shares D → Type 0
  Origin config raw =
      (is_empty config.secret ≡ true)
        × ((s : World) × (t : World) × (D.generate_with_dealer config.max_signers config.min_signers
                s
              ≡ (ok raw, t)))
      ⊎ (is_empty config.secret ≡ false)
        × ((key : D.SigningKey) × (s : World) × (t : World) × (D.deserialize config.secret ≡ ok key)
            × (D.split key config.max_signers config.min_signers s ≡ (ok raw, t)))

  -- The text of the secret key among the arguments.
  abbrev pub Text : Option String → String → Type 0
  Text none text = text ≡ ""
  Text (some given) text = text ≡ given

  -- The inputs are the arguments' ones; or they are asked for, and are the answers to the three
  -- prompts, in the order of the threshold, the number of signers and the secret key.
  abbrev pub Asked : Args → DealerConfig → Type 0
  Asked args config =
      ((args.cli ≡ false)
        × (config.min_signers ≡ args.threshold)
        × (config.max_signers ≡ args.num_signers)
        × ((text : String) × Text args.key text × (D.decode_hex text ≡ some config.secret)))
      ⊎ ((args.cli ≡ true)
          × ((s : World) × (min : String) × (max : String) × (text : String) × (t : World) × Answers
                s (min ∷ max ∷ text ∷ []) t
              × (D.parse_u16 (D.trim min) ≡ some config.min_signers)
              × (D.parse_u16 (D.trim max) ≡ some config.max_signers)
              × (D.decode_hex (D.trim text) ≡ some config.secret)))

  -- The shares of redpallas are converted by whether the key has an even Y coordinate, each under its
  -- identifier; those of another ciphersuite are as they were.
  abbrev pub Converted : Shares D → Shares D → Type 0
  Converted raw g =
      ((D.is_redpallas ≡ false) × (g ≡ raw))
      ⊎ ((D.is_redpallas ≡ true)
          × (g.1 ≡ D.package_into_even_y (D.has_even_y raw.1) raw.1)
          × (length g.0 ≡ length raw.0)
          × EachAt
              (λ j kv. get_elem? g.0 j ≡ some (kv.0, D.share_into_even_y (D.has_even_y raw.1) kv.1))
              raw.0)

  -- What redpallas makes of a key and its shares.
  abbrev even_shares : Shares D → Shares D
  even_shares raw = (
    shares_into_even_y D (D.has_even_y raw.1) raw.0,
    D.package_into_even_y (D.has_even_y raw.1) raw.1,
  )

  shares_into_even_y-EachAt :
      (even : Bool) (shares : Map Identifier SecretShare)
      → (length (shares_into_even_y D even shares) ≡ length shares)
        × EachAt
            (λ j kv.
              get_elem? (shares_into_even_y D even shares) j
              ≡ some (kv.0, D.share_into_even_y even kv.1))
            shares
  unfolding shares_into_even_y
  shares_into_even_y-EachAt even [] =
      (refl, EachAt-nil (λ j kv. none ≡ some (kv.0, D.share_into_even_y even kv.1)))
  shares_into_even_y-EachAt even ((i, s) ∷ shares) =
      let (count, each) = shares_into_even_y-EachAt even shares in
      (
        ap suc count,
        EachAt-cons
            (λ j kv.
              get_elem? ((i, D.share_into_even_y even s) ∷ shares_into_even_y D even shares) j
              ≡ some (kv.0, D.share_into_even_y even kv.1))
            (i, s) shares refl each,
      )

  into_even_y-other : (raw : Shares D) → D.is_redpallas ≡ false → into_even_y D raw ≡ raw
  unfolding into_even_y
  into_even_y-other raw e = ap (λ b. if b then even_shares raw else raw) e

  into_even_y-redpallas :
      (raw : Shares D) → D.is_redpallas ≡ true → into_even_y D raw ≡ even_shares raw
  unfolding into_even_y
  into_even_y-redpallas raw e = ap (λ b. if b then even_shares raw else raw) e

  into_even_y-Converted : (raw : Shares D) → Converted raw (into_even_y D raw)
  into_even_y-Converted raw = elim (Bool-cases D.is_redpallas) [
    | inr e ↦ inl (e, into_even_y-other raw e)
    | inl e ↦
        let (count, each) = shares_into_even_y-EachAt (D.has_even_y raw.1) raw.0 in
        subst⁻¹ (λ g. Converted raw g) (into_even_y-redpallas raw e) (inr (e, refl, count, each))
  ]

  pub record Made (args : Args) (g : Shares D) : Type 0 where
    pub config : DealerConfig
    pub raw : Shares D
    pub accepted : Accepted config
    pub asked : Asked args config
    pub origin : Origin config raw
    pub checked : Checked raw.0
    pub converted : Converted raw g

  -- What a raw result has.
  abbrev Raw : DealerConfig → Shares D → Type 0
  Raw config raw = Origin config raw × Checked raw.0

  checks :
      (config : DealerConfig) (made : Shares D) {R : World → Type 0}
      → ((s : World) → R s → Origin config made)
      → Ensures R (lift (check_shares D made.0) >>= λ u. pure made) (λ raw s. Raw config raw)
  checks config made {R} origin =
      ensures_then {Q = λ u s. Raw config made}
        (ensures_lift (check_shares D made.0)
          (λ s r u e. (origin s r, check_shares-Checked made.0 u e)))
        (λ u. ensures_pure made (λ s r. r))

  keygen :
      (config : DealerConfig)
      → is_empty config.secret ≡ true
      → Ensures (λ s. Unit {0}) (trusted_dealer_keygen D config) (λ raw s. Raw config raw)
  unfolding trusted_dealer_keygen
  keygen config blank =
      ensures_then {Q = λ made s. Origin config made}
        (record { ensured = λ s p made t e. inl (blank, (s, t, e)) })
        (λ made. checks config made (λ s r. r))

  splits :
      (config : DealerConfig)
      → is_empty config.secret ≡ false
      → Ensures (λ s. Unit {0}) (split_secret D config) (λ raw s. Raw config raw)
  unfolding split_secret
  splits config given =
      ensures_then {Q = λ key s. D.deserialize config.secret ≡ ok key}
        (ensures_lift (D.deserialize config.secret) (λ s p key e. e))
        (λ key.
          ensures_then {Q = λ made s. Origin config made}
            (record { ensured = λ s p made t e. inr (given, (key, s, t, p, e)) })
            (λ made. checks config made (λ s r. r)))

  made_raw :
      (config : DealerConfig) (b : Bool)
      → is_empty config.secret ≡ b
      → Ensures
          (λ s. Unit {0})
          (if b then trusted_dealer_keygen D config else split_secret D config)
          (λ raw s. Raw config raw)
  made_raw config true is = keygen config is
  made_raw config false is = splits config is

  blank : (key : Option String) → Text key (or_blank D key)
  blank none = refl
  blank (some text) = refl

  same_world :
      {A : Type 0} {E F : Type 0} (f : E → F) (x : Outcome E A × World) {a : A} {t : World}
      → ◌≡◌ {A = Outcome F A × World} (raise f x.0, x.1) (ok a, t)
      → x ≡ (ok a, t)
  same_world f (r, w) e =
      let fine = raise-ok f r _ (ap (λ y. y.0) e) in
      let world : w ≡ _ = ap (λ y. y.1) e in rw (fine, world) refl

  pure-eq-ok :
      {E S A : Type 0} {a b : A} {s t : S} → pure {E = E} a s ≡ (ok b, t) → (a ≡ b) × (s ≡ t)
  pure-eq-ok {a} {b} e =
      let same : ok a ≡ ok b = ap (λ y. y.0) e in let is : a ≡ b = cc in (is, ap (λ y. y.1) e)

  -- One prompt and its answer, and what follows them.
  ask_then :
      {B : Type 0} {b : B} {s t : World} (prompt : String) (f : String → Dealt D B)
      → (ask D prompt >>= f) s ≡ (ok b, t)
      → (line : String) × (v : World) × (u : World) × (D.write_line prompt s ≡ (ok tt, v))
        × (D.read_line v ≡ (ok line, u))
        × (f (D.trim line) u ≡ (ok b, t))
  unfolding ask
  ask_then {s} prompt f e =
      let (answer, u, asked, rest) = continue-eq-ok (ask D prompt s) f e in
      let (line, w, got, last) =
        continue-eq-ok ((raised io_error (D.write_line prompt) >> raised io_error D.read_line) s)
          (λ line. pure (D.trim line)) asked in
      let (x, v, wrote, more) =
        continue-eq-ok (raised io_error (D.write_line prompt) s) (λ x. raised io_error D.read_line)
          got in
      let (is, world) = pure-eq-ok last in
      (
        line,
        v,
        u,
        same_world io_error (D.write_line prompt s) wrote,
        rw world at (same_world io_error (D.read_line v) more),
        rw (sym is) at rest,
      )

  -- A value that is read, and what follows it.
  read_then :
      {A B : Type 0} {b : B} {s t : World} (r : Option A) (e : DealerError D.IoError D.FrostError)
      (f : A → Dealt D B)
      → (lift (ok_or r e) >>= f) s ≡ (ok b, t)
      → (a : A) × (r ≡ some a) × (f a s ≡ (ok b, t))
  read_then {s} r e f h =
      let (a, u, first, rest) = continue-eq-ok (lift (ok_or r e) s) f h in
      let world : s ≡ u = ap (λ y. y.1) first in
      (a, ok_or-ok r e (ap (λ y. y.0) first), rw (sym world) at rest)

  ask_config-Answers :
      (s t : World) (config : DealerConfig)
      → ask_config D s ≡ (ok config, t)
      → (min : String) × (max : String) × (text : String) × (t : World) × Answers s
          (min ∷ max ∷ text ∷ [])
          t
        × (D.parse_u16 (D.trim min) ≡ some config.min_signers)
        × (D.parse_u16 (D.trim max) ≡ some config.max_signers)
        × (D.decode_hex (D.trim text) ≡ some config.secret)
  unfolding ask_config
  ask_config-Answers s t config e =
      let (l1, v1, u1, p1, r1, e1) = ask_then _ _ e in
      let (m, min, e2) = read_then _ _ _ e1 in
      let (l2, v2, u2, p2, r2, e3) = ask_then _ _ e2 in
      let (k, max, e4) = read_then _ _ _ e3 in
      let (l3, v3, u3, p3, r3, e5) = ask_then _ _ e4 in
      let (x, hex, e6) = read_then _ _ _ e5 in
      let same = (pure-eq-ok e6).0 in
      (
        l1,
        l2,
        l3,
        u3,
        (_, v1, u1, p1, r1, (_, v2, u2, p2, r2, (_, v3, u3, p3, r3, refl))),
        min ∙ ap (λ (z : DealerConfig). some z.min_signers) same,
        max ∙ ap (λ (z : DealerConfig). some z.max_signers) same,
        hex ∙ ap (λ (z : DealerConfig). some z.secret) same,
      )

  asks :
      (args : Args) (b : Bool)
      → args.cli ≡ b
      → Ensures
          (λ s. Unit {0})
          (if b then ask_config D else args_config D args)
          (λ config s. Asked args config)
  unfolding args_config
  asks args true is = record {
    ensured = λ s p config t e.
        let (min, max, text, u, answers, a, b, c) = ask_config-Answers s t config e in
        inr (is, (s, min, max, text, u, answers, a, b, c));
  }
  asks args false is =
      let read = D.decode_hex (or_blank D args.key) in
      ensures_then {Q = λ secret s. read ≡ some secret}
        (ensures_lift _ (λ s p secret e. ok_or-ok read malformed_signing_key e))
        (λ secret.
          ensures_pure _ (λ s p. inl (is, refl, refl, (or_blank D args.key, blank args.key, p))))

  requests :
      (args : Args)
      → Ensures
          (λ s. Unit {0})
          (request_inputs D args)
          (λ config s. Asked args config × Accepted config)
  unfolding request_inputs
  requests args = ensures_then (asks args args.cli refl) (λ config.
      ensures_then {Q = λ u s. Asked args config × Accepted config}
        (ensures_lift (validate_inputs config) (λ s p u e. (p, validate_inputs_lem config u e)))
        (λ u. ensures_pure config (λ s p. p)))

  deals : (args : Args) → Ensures (λ s. Unit {0}) (deal D args) (λ g s. Made args g)
  unfolding deal trusted_dealer
  deals args = ensures_then (requests args) (λ config.
      ensures_then {Q = λ raw s. (Asked args config × Accepted config) × Raw config raw}
        (raised-Ensures _ _ (
          ensures_weaker (λ s p. (p, tt))
            (ensures_both (ensures_fact _) (made_raw config (is_empty config.secret) refl))))
        (λ raw. ensures_pure (into_even_y D raw) (λ s p. record {
          config = config;
          raw = raw;
          accepted = p.0.1;
          asked = p.0.0;
          origin = p.1.0;
          checked = p.1.1;
          converted = into_even_y-Converted raw;
        })))

  -- The shares of a trusted dealer are made for two signers or more, of at most all participants.
  -- These numbers and the secret are the arguments' ones, or the answers to three prompts in turn if
  -- the arguments say so. The shares come from a new key exactly when the secret is empty, and else
  -- from the secret. Each makes a key package. For redpallas each is then converted by whether the Y
  -- coordinate of the key is even, and for another ciphersuite all stays as it was.
  pub deal_lem :
      (args : Args) (g : Shares D) (s t : World) → deal D args s ≡ (ok g, t) → Made args g
  deal_lem args g s t e = (deals args).ensured s tt g t e
