-- ===== src/Stream/Pages.antt =====
-- The pages of a sender's or a recipient's streams are parts of the whole list.
use stellar_stream_hive_cont.Base.{ℕ, ◌≤◌, ◌≡◌, ap, ◌∙◌, min, List}
use stellar_stream_hive_cont.Base.Lists.{length, take, drop}
use stellar_stream_hive_cont.Base.Pages.{u32_max, gather-page, gather-get_elem?, get_elem?-inside}
use stellar_stream_hive_cont.Base.Lists.{get_elem?}
use stellar_stream_hive_cont.Host.{Env, Address}
use stellar_stream_hive_cont.Host.Invoke.{Invoker}
use stellar_stream_hive_cont.Stream.Storage.{World, get_sender_streams, get_recipient_streams}
use stellar_stream_hive_cont.Stream.Steps.{Ran}
use stellar_stream_hive_cont.Stream.Index.{
  AllStored, hydrate-take, hydrate-drop, drop-AllStored, ids_where-AllStored, is_sent_by,
  is_received_by,
}
use stellar_stream_hive_cont.Stream.Listing.{Ran-IsListed}
use stellar_stream_hive_cont.Stream.Queries.{
  slice, hydrate, max_page_size, get_streams_by_sender, get_streams_by_recipient,
  get_streams_by_sender_page, get_streams_by_recipient_page, count_streams_by_sender,
  count_streams_by_recipient,
}

-- A slice is a part of the list.
slice-take :
    (ids : List ℕ) (offset limit : ℕ)
    → length ids ≤ u32_max
    → slice ids offset limit ≡ take (min limit max_page_size) (drop offset ids)
slice-take ids offset limit h =
    gather-page (get_elem? ids) (length ids) offset (min limit max_page_size) h
      (get_elem?-inside ids)
    ∙ ap (λ l. take (min limit max_page_size) (drop offset l)) (gather-get_elem? ids)

module _ {W : Type 0} where
  hydrate-slice :
      (env : Env) (w : World W) (ids : List ℕ) (offset limit : ℕ)
      → length ids ≤ u32_max
      → AllStored w ids
      → hydrate env w (slice ids offset limit)
        ≡ take (min limit max_page_size) (drop offset (hydrate env w ids))
  hydrate-slice env w ids offset limit h s =
      ap (hydrate env w) (slice-take ids offset limit h)
      ∙ hydrate-take env w (min limit max_page_size) (drop offset ids)
          (drop-AllStored w offset ids s)
      ∙ ap (take (min limit max_page_size)) (hydrate-drop env w offset ids s)

module _ {W : Type 0} (host : Invoker W) where
  -- In every state that the contract can reach from its deployment, for a sender and a recipient with
  -- no more streams than a `u32` counts: a page of their streams is the part of the whole list that
  -- starts after the first `offset` and has at most `limit` and at most 50 elements.
  pub get_streams_page-take :
      (o : W) (env : Env) (a : Address) (offset limit : ℕ) (w : World W)
      → Ran host o w
      → count_streams_by_sender a w ≤ u32_max
      → count_streams_by_recipient a w ≤ u32_max
      → (get_streams_by_sender_page env a offset limit w
          ≡ take (min limit max_page_size) (drop offset (get_streams_by_sender env a w)))
        × (get_streams_by_recipient_page env a offset limit w
            ≡ take (min limit max_page_size) (drop offset (get_streams_by_recipient env a w)))
  get_streams_page-take o env a offset limit w r h k =
      let v = Ran-IsListed host o w r in
      (
        hydrate-slice env w (get_sender_streams a w) offset limit h (
            rw (v.sent a) (ids_where-AllStored w (is_sent_by a) w.streams v.distinct (λ k s l. l))),
        hydrate-slice env w (get_recipient_streams a w) offset limit k (
            rw (v.received a)
              (ids_where-AllStored w (is_received_by a) w.streams v.distinct (λ k s l. l))),
      )
