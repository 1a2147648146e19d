-- ===== src/Stream/Index.antt =====
-- The lists of streams by sender and by recipient, compared with the stored streams.
use stellar_stream_hive_cont.Base.{
  ℕ, zero, suc, ◌≡◌, refl, ap, Bool, none, some, List, [], ◌∷◌, ◌++◌, map, arith, ◌==◌,
  if◌then◌else◌, inl, inr, Bool-cases, ==-refl,
}
use stellar_stream_hive_cont.Base.Dict.{Dict, lookup, insert, AllDistinct, lookup-tail}
use stellar_stream_hive_cont.Base.Lists.{take, drop}
use stellar_stream_hive_cont.Host.{Env, Address}
use stellar_stream_hive_cont.Stream.Types.{Stream}
use stellar_stream_hive_cont.Stream.Storage.{World}
use stellar_stream_hive_cont.Stream.Queries.{refresh, hydrate}

-- The streams with a property and their ids, in the order of their creation.
abbrev pub ids_where : (Stream → Bool) → Dict Stream → List ℕ
ids_where p [] = []
ids_where p (e ∷ d) = let rest = ids_where p d in if p e.1 then e.0 ∷ rest else rest

abbrev pub streams_where : (Stream → Bool) → Dict Stream → List Stream
streams_where p [] = []
streams_where p (e ∷ d) = let rest = streams_where p d in if p e.1 then e.1 ∷ rest else rest

-- The streams of a sender and of a recipient.
abbrev pub is_sent_by : Address → Stream → Bool
is_sent_by a s = a == s.sender

abbrev pub is_received_by : Address → Stream → Bool
is_received_by a s = a == s.recipient

pub ids_where-new :
    (p : Stream → Bool) (k : ℕ) (s : Stream) (d : Dict Stream)
    → lookup k d ≡ none
    → ids_where p (insert k s d) ≡ (if p s then ids_where p d ++ (k ∷ []) else ids_where p d)
ids_where-new p k s [] h = ground arith
ids_where-new p k s (e ∷ d) h = ground (arith, ids_where-new p k s d)

pub ids_where-replaced :
    (p : Stream → Bool) (k : ℕ) (s r : Stream) (d : Dict Stream)
    → lookup k d ≡ some r
    → p s ≡ p r
    → ids_where p (insert k s d) ≡ ids_where p d
ids_where-replaced p k s r [] h e = absurd (ground arith)
ids_where-replaced p k s r (x ∷ d) h e = ground (arith, ids_where-replaced p k s r d)

module _ {W : Type 0} where
  -- Hydrating the ids of some of the streams gives them, with their current status.
  pub hydrate-where :
      (env : Env) (w : World W) (p : Stream → Bool) (d : Dict Stream)
      → AllDistinct d
      → ((k : ℕ) (s : Stream) → lookup k d ≡ some s → lookup k w.streams ≡ some s)
      → hydrate env w (ids_where p d) ≡ map (refresh env) (streams_where p d)
  hydrate-where env w p [] h f = refl
  hydrate-where env w p (e ∷ d) h f =
      let rest = hydrate-where env w p d h.1 (λ k s l. f k s (lookup-tail k s e d h l)) in
      let here = f e.0 e.1 (rw (==-refl e.0) refl) in
      elim (Bool-cases (p e.1)) [
        | inl chosen ↦ rw (chosen, here) (ap (λ l. refresh env e.1 ∷ l) rest)
        | inr skipped ↦ rw skipped rest
      ]

  -- Where every id has its stream, hydrating a part of the ids gives that part of the streams.
  abbrev pub AllStored : World W → List ℕ → Type 0
  AllStored w [] = Unit {0}
  AllStored w (id ∷ ids) = ((s : Stream) × (lookup id w.streams ≡ some s)) × AllStored w ids

  pub hydrate-take :
      (env : Env) (w : World W) (n : ℕ) (ids : List ℕ)
      → AllStored w ids
      → hydrate env w (take n ids) ≡ take n (hydrate env w ids)
  hydrate-take env w zero ids h = refl
  hydrate-take env w (suc n) [] h = refl
  hydrate-take env w (suc n) (id ∷ ids) ((s, e), h) =
      rw e (ap (λ l. refresh env s ∷ l) (hydrate-take env w n ids h))

  pub hydrate-drop :
      (env : Env) (w : World W) (n : ℕ) (ids : List ℕ)
      → AllStored w ids
      → hydrate env w (drop n ids) ≡ drop n (hydrate env w ids)
  hydrate-drop env w zero ids h = refl
  hydrate-drop env w (suc n) [] h = refl
  hydrate-drop env w (suc n) (id ∷ ids) ((s, e), h) = rw e (hydrate-drop env w n ids h)

  pub drop-AllStored :
      (w : World W) (n : ℕ) (ids : List ℕ) → AllStored w ids → AllStored w (drop n ids)
  drop-AllStored w zero ids h = h
  drop-AllStored w (suc n) [] h = h
  drop-AllStored w (suc n) (id ∷ ids) h = drop-AllStored w n ids h.1

  pub ids_where-AllStored :
      (w : World W) (p : Stream → Bool) (d : Dict Stream)
      → AllDistinct d
      → ((k : ℕ) (s : Stream) → lookup k d ≡ some s → lookup k w.streams ≡ some s)
      → AllStored w (ids_where p d)
  ids_where-AllStored w p [] h f = tt
  ids_where-AllStored w p (e ∷ d) h f =
      let rest = ids_where-AllStored w p d h.1 (λ k s l. f k s (lookup-tail k s e d h l)) in
      let here = f e.0 e.1 (rw (==-refl e.0) refl) in
      elim (Bool-cases (p e.1)) [
        | inl chosen ↦ rw chosen ((e.1, here), rest)
        | inr skipped ↦ rw skipped rest
      ]
