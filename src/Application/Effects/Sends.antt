-- ===== src/Application/Effects/Sends.antt =====
-- What an action puts in the queue.
use prism_agent.Prelude.{
  ◌≡◌, ◌∙◌, sym, refl, ap, Bool, true, false, List, [], ◌++◌, map, if◌then◌else◌,
}
use mathlib.Core.List.{append-nil, append_assoc}
use prism_agent.Domain.Events.{EventKind}
use prism_agent.Application.Effects.{Runtime, Action, return, pure, ◌>>=◌, ◌>>◌}
use prism_agent.Application.Effects.Keeps.{Keeps}

-- The kinds of the queued events, in the order of the queue.
abbrev pub queued : Runtime → List EventKind
queued s = map (λ m. m.envelope.event.kind) s.queue.messages

-- `m` does not raise, and puts events of the given kinds at the end of the queue.
pub record Sends (m : Action (Unit {0})) (kinds : List EventKind) : Type 0 where
  pub ends : (s : Runtime) → (m s).0 ≡ return tt
  pub puts : (s : Runtime) → queued (m s).1 ≡ queued s ++ kinds

pub Sends-pure : Sends (pure tt) []
unfolding ◌>>=◌
Sends-pure = record { ends = λ s. refl; puts = λ s. sym (append-nil (queued s)) }

pub Sends-bind :
    (m n : Action (Unit {0})) (first rest : List EventKind)
    → Sends m first
    → Sends n rest
    → Sends (m >> n) (first ++ rest)
unfolding ◌>>=◌
Sends-bind m n first rest hm hn = record {
  ends = λ s. rw (hm.ends s) (hn.ends (m s).1);
  puts = λ s.
      rw (hm.ends s)
        (hn.puts (m s).1 ∙ ap (λ l. l ++ rest) (hm.puts s) ∙ append_assoc (queued s) first rest);
}

-- The queue has events of the given kinds.
abbrev pub Queued : List EventKind → Runtime → Type 0
Queued l s = queued s ≡ l

-- Whether it raises or not, `m` puts events of the given kinds at the end of the queue.
abbrev pub Puts : Action (Unit {0}) → List EventKind → Type 0
Puts m kinds = (s : Runtime) → queued (m s).1 ≡ queued s ++ kinds

pub Puts-bind :
    (m n : Action (Unit {0})) (first rest : List EventKind)
    → Sends m first
    → Puts n rest
    → Puts (m >> n) (first ++ rest)
unfolding ◌>>=◌
Puts-bind m n first rest hm hn s =
    rw (hm.ends s)
      (hn (m s).1 ∙ ap (λ l. l ++ rest) (hm.puts s) ∙ append_assoc (queued s) first rest)

pub Puts-nothing : (m : Action (Unit {0})) → ((l : List EventKind) → Keeps (Queued l) m) → Puts m []
Puts-nothing m k s = (k (queued s)).at s refl ∙ sym (append-nil (queued s))

pub Puts-if :
    {kinds : List EventKind} (b : Bool) (m n : Action (Unit {0}))
    → (b ≡ true → Puts m kinds)
    → Puts n kinds
    → Puts (if b then m else n) kinds
Puts-if true m n hm hn = hm refl
Puts-if false m n hm hn = hn
