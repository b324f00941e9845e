-- ===== src/Messaging/Connection/Restoring.antt =====
-- What `reconnect` of internal/messaging/rabbitmq.go achieves with a broker that comes back.
use clusterprobe.Prelude.{
  List, [], ◌∷◌, ◌++◌, ap, sym, ℕ, zero, suc, ◌-◌, ◌≤◌, ◌<◌, ◌≡◌, refl, arith, Bool, true, false,
  Option, none, some,
}
use clusterprobe.Go.Int64.{ℤ, pos}
use clusterprobe.Go.Errors.{GoError, Result, ok, err}
use clusterprobe.Retry.{next_backoff}
use clusterprobe.Messaging.Broker.{
  Event, did_dial, did_open, did_close_conn, did_close_channel, did_wait, close_conn, close_channel,
  Handle, Env, Outside, dial, open_channel, wait,
}
use clusterprobe.Messaging.Connection.{
  close_old_channel, close_old_conn, Link, connect, reconnect, reconnect_from, install, dialed,
  after_attempt, after_wait,
}

-- `left w` dials are still refused in the world `w`, and each uses up one; a connection gives a
-- channel, waiting and closing do not make it worse, and the context is not done.
pub record IsRecovering {W : Type 0} (env : Env W) (left : W → ℕ) : Type 0 where
  pub dials : (w : W) → left w ≡ 0 → (h : Handle) × ((env.dial w).0 ≡ ok h)
  pub uses_up : (w : W) → left (env.dial w).1 ≤ left w - 1
  pub opens : (h : Handle) (w : W) → (c : Handle) × ((env.open_channel h w).0 ≡ ok c)
  pub waits : (d : ℤ) (w : W) → (env.wait d w).0 ≡ false
  pub waiting : (d : ℤ) (w : W) → left (env.wait d w).1 ≤ left w

-- Nothing happens but that the handles of a link are closed.
abbrev pub AreClosing : Link → List Event → Type 0
AreClosing old [] = Unit {0}
AreClosing old (did_close_conn h e ∷ es) = (old.conn ≡ some h) × AreClosing old es
AreClosing old (did_close_channel h e ∷ es) = (old.channel ≡ some h) × AreClosing old es
AreClosing old (_ ∷ es) = ⊥

-- The link holds the connection that was dialed last and the channel that was opened on it; both
-- were got after the events `earlier`, and after that only handles of the old link were closed.
pub record IsRestored (old link : Link) (trace earlier : List Event) : Type 0 where
  pub conn : Handle
  pub channel : Handle
  pub held : link ≡ record { conn = some conn; channel = some channel }
  pub closed : List Event
  pub before : List Event
  pub closes : AreClosing old closed
  pub calls :
      trace ≡ closed ++ (did_open conn (ok channel) ∷ did_dial (ok conn) ∷ (before ++ earlier))

-- The events `earlier` with more before them in the list.
record Extends (trace earlier : List Event) : Type 0 where
  more : List Event
  grown : trace ≡ more ++ earlier

module _ {W : Type 0} {env : Env W} {left : W → ℕ} (recovering : IsRecovering env left) (old : Link)
    (earlier : List Event) where
  -- An attempt restores the link, or it fails and uses up a refusal.
  Attempts : ℕ → (Option GoError × Link) × Outside W → Type 0
  Attempts n ((none, l), s) = IsRestored old l s.trace earlier
  Attempts n ((some e, l), s) = (left s.world < n) × Extends s.trace earlier × (l ≡ old)

  closed-IsRestored :
      (h c : Handle) (conn channel : Option Handle) (s : Outside W) (es : List Event)
      → old.conn ≡ conn
      → old.channel ≡ channel
      → s.trace ≡ did_open h (ok c) ∷ did_dial (ok h) ∷ (es ++ earlier)
      → IsRestored old
          (record { conn = some h; channel = some c })
          (close_old_conn env conn (close_old_channel env channel s)).trace
          earlier
  unfolding close_old_channel close_old_conn close_channel close_conn
  closed-IsRestored h c none none s es p q t = record {
    conn = h;
    channel = c;
    held = refl;
    closed = [];
    before = es;
    closes = tt;
    calls = t;
  }
  closed-IsRestored h c none (some x) s es p q t =
      let (e, w) = env.close_channel x s.world in
      record {
        conn = h;
        channel = c;
        held = refl;
        closed = did_close_channel x e ∷ [];
        before = es;
        closes = (q, tt);
        calls = ap (λ l. did_close_channel x e ∷ l) t;
      }
  closed-IsRestored h c (some y) none s es p q t =
      let (e, w) = env.close_conn y s.world in
      record {
        conn = h;
        channel = c;
        held = refl;
        closed = did_close_conn y e ∷ [];
        before = es;
        closes = (p, tt);
        calls = ap (λ l. did_close_conn y e ∷ l) t;
      }
  closed-IsRestored h c (some y) (some x) s es p q t =
      let (d, w) = env.close_channel x s.world in
      let (e, v) = env.close_conn y w in
      record {
        conn = h;
        channel = c;
        held = refl;
        before = es;
        closes = (p, (q, tt));
        closed = did_close_conn y e ∷ did_close_channel x d ∷ [];
        calls = ap (λ l. did_close_conn y e ∷ did_close_channel x d ∷ l) t;
      }

  install-Attempts :
      (n : ℕ) (h c : Handle) (link : Link) (r : Result Handle) (s : Outside W) (es : List Event)
      → link ≡ old
      → r ≡ ok c
      → s.trace ≡ did_open h r ∷ did_dial (ok h) ∷ (es ++ earlier)
      → Attempts n (install env h link (r, s))
  unfolding install Attempts
  install-Attempts n h c link (ok c') s es k e t =
      closed-IsRestored h c' link.conn link.channel s es (ap (λ l. l.conn) (sym k))
        (ap (λ l. l.channel) (sym k)) t
  install-Attempts n h c link (err e') s es k e t = absurd (ground arith)

  dialed-Attempts :
      (n m : ℕ) (link : Link) (r : Result Handle) (s : Outside W) (es : List Event)
      → link ≡ old
      → (m ≡ 0 → (h : Handle) × (r ≡ ok h))
      → m < suc n
      → left s.world ≤ m - 1
      → s.trace ≡ did_dial r ∷ (es ++ earlier)
      → Attempts n (dialed env link (r, s))
  unfolding dialed open_channel Attempts
  dialed-Attempts n zero link (err e) s es k dials few used t =
      let (h, fails) = dials refl in absurd (ground arith)
  dialed-Attempts n (suc m) link (err e) s es k dials few used t =
      (omega arith, record { more = did_dial (err e) ∷ es; grown = t }, k)
  dialed-Attempts n m link (ok h) s es k dials few used t =
      let (c, opened) = recovering.opens h s.world in
      install-Attempts n h c link _ _ es k opened
        (ap (λ l. did_open h (env.open_channel h s.world).0 ∷ l) t)

  connect-Attempts :
      (n : ℕ) (link : Link) (s : Outside W)
      → left s.world < suc n
      → Extends s.trace earlier
      → link ≡ old
      → Attempts n (connect env link s)
  unfolding connect dial
  connect-Attempts n link s few x k =
      dialed-Attempts n (left s.world) link _ _ x.more k (recovering.dials s.world) few
        (recovering.uses_up s.world) (ap (λ l. did_dial (env.dial s.world).0 ∷ l) x.grown)

  -- What is left of the loop restores the link.
  Restores : ℕ → (Link → Outside W → Link × Outside W) → Type 0
  Restores n more =
      (l : Link) (t : Outside W)
      → left t.world < n
      → Extends t.trace earlier
      → l ≡ old
      → IsRestored old (more l t).0 (more l t).1.trace earlier

  after_wait-IsRestored :
      (n : ℕ) (link : Link) (done : Bool) (s : Outside W)
      (more : Link → Outside W → Link × Outside W)
      → done ≡ false
      → left s.world < n
      → Extends s.trace earlier
      → link ≡ old
      → Restores n more
      → IsRestored old
          (after_wait env link (done, s) more).0
          (after_wait env link (done, s) more).1.trace
          earlier
  unfolding after_wait Restores
  after_wait-IsRestored n link true s more e few x k restores = absurd (ground arith)
  after_wait-IsRestored n link false s more e few x k restores = restores link s few x k

  after_attempt-IsRestored :
      (n : ℕ) (b : ℤ) (x : (Option GoError × Link) × Outside W)
      (more : Link → Outside W → Link × Outside W)
      → Attempts n x
      → Restores n more
      → IsRestored old (after_attempt env b x more).0 (after_attempt env b x more).1.trace earlier
  unfolding after_attempt Attempts wait
  after_attempt-IsRestored n b ((none, l), s) more restored restores = restored
  after_attempt-IsRestored n b ((some e, l), s) more (few, x, k) restores =
      after_wait-IsRestored n l _ _ more (recovering.waits b s.world)
        (omega (arith, recovering.waiting b s.world))
        (record {
          more = did_wait b (env.wait b s.world).0 ∷ x.more;
          grown = ap (λ l. did_wait b (env.wait b s.world).0 ∷ l) x.grown;
        })
        k restores

  reconnect_from-IsRestored :
      (n : ℕ) (b : ℤ) (link : Link) (s : Outside W)
      → left s.world < n
      → Extends s.trace earlier
      → link ≡ old
      → IsRestored old
          (reconnect_from env n b link s).0
          (reconnect_from env n b link s).1.trace
          earlier
  unfolding reconnect_from Restores
  reconnect_from-IsRestored zero b link s few x k = absurd (omega arith)
  reconnect_from-IsRestored (suc n) b link s few x k =
      after_attempt-IsRestored n b (connect env link s) _ (connect-Attempts n link s few x k)
        (reconnect_from-IsRestored n (next_backoff b))

-- If the broker refuses nine dials at most and then accepts, while the context is not done, then
-- `reconnect` does not give up before the client has a new connection and a new channel: the link
-- holds a connection that this call has dialed and the channel that it has opened on it, and after
-- that it has only closed handles of the link as it was before.
pub reconnect-IsRestored :
    {W : Type 0} {env : Env W} {left : W → ℕ}
    → IsRecovering env left
    → (link : Link) (s : Outside W) → left s.world ≤ 9
    → IsRestored link (reconnect env link s).0 (reconnect env link s).1.trace s.trace
unfolding reconnect
reconnect-IsRestored recovering link s few =
    reconnect_from-IsRestored recovering link s.trace 10 (pos 500000000) link s (omega arith)
      (record { more = []; grown = refl }) refl
