-- ===== src/Messaging/Monitor/Reopening.antt =====
-- `Close` of internal/messaging/rabbitmq.go while the monitor watches the connection.
use mathlib.Core.Path.{subst}
use clusterprobe.Prelude.{
  ℕ, zero, suc, ◌≡◌, refl, sym, ap, ◌∙◌, none, some, List, [], ◌∷◌, ◌++◌, get_elem?, modify, arith,
}
use clusterprobe.Go.Int64.{pos}
use clusterprobe.Messaging.Broker.{Event, Handle}
use clusterprobe.Messaging.Connection.{Link}
use clusterprobe.Messaging.Monitor.{
  Pc, monitor, watching, dialing, idle, no_link, closing, Move, notified, close_link, dial_works,
  channel_works, install, Client, pick, Steps, here, later,
}

get_elem-modify :
    (ps : List Pc) (i : ℕ) (p q : Pc)
    → get_elem? ps i ≡ some p
    → get_elem? (modify ps i (λ _. q)) i ≡ some q
get_elem-modify [] i p q h = ground arith
get_elem-modify (x ∷ ps) zero p q h = refl
get_elem-modify (x ∷ ps) (suc i) p q h = get_elem-modify ps i p q h

modify_same : (ps : List Pc) (i : ℕ) (p : Pc) → get_elem? ps i ≡ some p → modify ps i (λ _. p) ≡ ps
modify_same [] i p h = refl
modify_same (x ∷ ps) zero p h = ground arith
modify_same (x ∷ ps) (suc i) p h = ap (λ l. x ∷ l) (modify_same ps i p h)

-- The client after a step of the goroutine `i`.
abbrev pub stepped : Client → ℕ → Link → List Event → Pc → Client
stepped s i l es q = record { link = l; pcs = modify s.pcs i (λ _. q); trace = es ++ s.trace }

-- Steps that the goroutine `i` alone takes.
pub data StepsOf (i : ℕ) (s : Client) : Client → Type 0 where
  none_left : StepsOf i s s
  more_of :
      {u : Client} {p q : Pc} {l : Link} {es : List Event}
      → StepsOf i s u
      → get_elem? u.pcs i ≡ some p
      → Move u.link p l es q
      → StepsOf i s (stepped u i l es q)

-- Steps of the goroutine `i` to a client where it stands at `q` and the link is `l`.
record Reaches (s : Client) (i : ℕ) (q : Pc) (l : Link) : Type 0 where
  last : Client
  steps : StepsOf i s last
  at : get_elem? last.pcs i ≡ some q
  linked : last.link ≡ l

extended :
    {s : Client} {i : ℕ} {p q : Pc} {l l' : Link} {es : List Event}
    → Reaches s i p l
    → Move l p l' es q
    → Reaches s i q l'
extended {i = i} {p = p} {q = q} {l' = l'} {es = es} r m = record {
  last = stepped r.last i l' es q;
  steps = more_of r.steps r.at (subst (λ k. Move k p l' es q) (sym r.linked) m);
  at = get_elem-modify r.last.pcs i p q r.at;
  linked = refl;
}

-- If an idle caller closes a client whose monitor watches the connection, then the client can come
-- to an empty link with every goroutine where it was before, and from there the monitor alone, no
-- other goroutine taking a step, can come to a link with whatever connection `h` and channel `c` the
-- broker gives it.
pub close_reopened :
    (s : Client) (i j : ℕ) (old h c : Handle)
    → get_elem? s.pcs i ≡ some (watching old)
    → get_elem? s.pcs j ≡ some idle
    → (u : Client) × (t : Client) × Steps s u
      × (u.link ≡ no_link)
      × (u.pcs ≡ s.pcs)
      × StepsOf i u t
      × (t.link ≡ record { conn = some h; channel = some c })
close_reopened s i j old h c watches idles =
    let u = stepped s j no_link (closing s.link none none) idle in
    let same : u.pcs ≡ s.pcs = modify_same s.pcs j idle idles in
    let start : Reaches u i (watching old) no_link = record {
      last = u;
      steps = none_left;
      at = ap (λ ps. get_elem? ps i) same ∙ watches;
      linked = refl;
    } in
    let dials : Reaches u i (dialing monitor 10 (pos 500000000)) no_link =
      extended start notified in
    let end =
      extended (extended (extended dials (dial_works h)) (channel_works c)) (install none none) in
    (
      u,
      end.last,
      later here (pick j idles (close_link none none)),
      refl,
      same,
      end.steps,
      end.linked,
    )
