-- ===== src/Stream/Diagram.antt =====
-- How one stream may change: its terms are fixed, what was withdrawn only grows, and its status
-- moves along a diagram.
use stellar_stream_hive_cont.Base.{ℕ, ◌≤◌, ◌≡◌, ◌≢◌, refl, ◌∙◌, ap, ◌⊎◌, arith}
use stellar_stream_hive_cont.Base.Int.{ℤ, pos, ◌+ℤ◌, ◌≤ℤ◌, int_laws}
use stellar_stream_hive_cont.Stream.Types.{
  StreamStatus, pending, active, completed, cancelled, Stream,
}
use stellar_stream_hive_cont.Stream.Math.{compute_status}
use stellar_stream_hive_cont.Stream.CancelEffect.{stopped}

-- The diagram of the statuses, and its paths.
infix 40 ◌⟶◌ ◌⟶*◌
pub data ◌⟶◌ : StreamStatus → StreamStatus → Type 0 where
  begin : pending ⟶ active
  finish : active ⟶ completed
  stop_pending : pending ⟶ cancelled
  stop_active : active ⟶ cancelled

pub data ◌⟶*◌ : StreamStatus → StreamStatus → Type 0 where
  here : {a : StreamStatus} → a ⟶* a
  after : {a b c : StreamStatus} → a ⟶ b → b ⟶* c → a ⟶* c

pending-active : pending ⟶* active
pending-active = after begin here

active-completed : active ⟶* completed
active-completed = after finish here

pending-completed : pending ⟶* completed
pending-completed = after begin active-completed

pending-cancelled : pending ⟶* cancelled
pending-cancelled = after stop_pending here

active-cancelled : active ⟶* cancelled
active-cancelled = after stop_active here

ruleset paths =
    (here, pending-active, active-completed, pending-completed, pending-cancelled, active-cancelled)

⟶*_trans : {a b c : StreamStatus} → a ⟶* b → b ⟶* c → a ⟶* c
⟶*_trans here q = q
⟶*_trans (after e p) q = after e (⟶*_trans p q)

-- No path leaves a status that is final.
pub final_stays : (a b : StreamStatus) → a ⟶* b → (a ≡ completed) ⊎ (a ≡ cancelled) → b ≡ a
final_stays a _ here f = refl
final_stays _ b (after begin p) f = absurd (ground arith)
final_stays _ b (after finish p) f = absurd (ground arith)
final_stays _ b (after stop_pending p) f = absurd (ground arith)
final_stays _ b (after stop_active p) f = absurd (ground arith)

-- The stream `s` at the ledger `now` has become `s'` at the ledger `later`.
pub record Follows (now later : ℕ) (s s' : Stream) : Type 0 where
  pub terms : s' ≡ record s {
    withdrawn = s'.withdrawn;
    status = s'.status;
    cancelled_at_ledger = s'.cancelled_at_ledger;
  }
  pub grows : s.withdrawn ≤ℤ s'.withdrawn
  pub moves : compute_status s now ⟶* compute_status s' later

pub Follows-trans :
    (n m l : ℕ) (a b c : Stream) → Follows n m a b → Follows m l b c → Follows n l a c
Follows-trans n m l a b c f g = record {
  terms =
      g.terms
      ∙ ap {A = Stream}
          (λ x. record x {
            withdrawn = c.withdrawn;
            status = c.status;
            cancelled_at_ledger = c.cancelled_at_ledger;
          })
          f.terms;
  grows = omega (arith, f.grows, g.grows);
  moves = ⟶*_trans f.moves g.moves;
}

-- Time alone.
status_later : (s : Stream) (n m : ℕ) → n ≤ m → compute_status s n ⟶* compute_status s m
unfolding compute_status
status_later s n m h = grind (arith, paths)

-- A withdrawal.
pub withdrawn-Follows :
    (s : Stream) (amount : ℤ) (n m : ℕ)
    → n ≤ m
    → pos 1 ≤ℤ amount
    → Follows n m s (record s { withdrawn = s.withdrawn +ℤ amount })
unfolding compute_status
withdrawn-Follows s amount n m h p = record {
  terms = refl;
  grows = omega int_laws;
  moves = status_later s n m h;
}

-- A cancellation of a stream that is live at the time.
pub stopped-Follows :
    (s : Stream) (n m : ℕ)
    → n ≤ m
    → compute_status s m ≢ cancelled
    → compute_status s m ≢ completed
    → Follows n m s (stopped s m)
unfolding compute_status
stopped-Follows s n m h live open_ended = record {
  terms = refl;
  grows = omega arith;
  moves = grind (arith, paths);
}

pub same-Follows : (s : Stream) (n m : ℕ) → n ≤ m → Follows n m s s
same-Follows s n m h = record { terms = refl; grows = omega arith; moves = status_later s n m h }
