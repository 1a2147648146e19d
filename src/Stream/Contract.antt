-- ===== src/Stream/Contract.antt =====
-- The operations of the stream contract that change the state, contracts/stream/src/lib.rs.
use stellar_stream_hive_cont.Base.{
  ℕ, Bool, true, false, not, ◌||◌, Option, none, some, ltb, leb, ◌==◌,
}
use stellar_stream_hive_cont.Base.Int.{ℤ, pos, leb_ℤ, ltb_ℤ, eqb_ℤ, checked_add, checked_sub}
use stellar_stream_hive_cont.Host.{
  Env, Address, Action, ◌>>=◌, ◌>>◌, pure, gets, modify, raise_if, ok_or, lift, require_auth,
  require_auth_after, choose, when, external,
}
use stellar_stream_hive_cont.Host.Invoke.{Invoker}
use stellar_stream_hive_cont.Stream.Types.{
  pending, completed, cancelled, same_status, Stream, StreamEvent, StreamError, already_initialized,
  not_initialized, unauthorized, invalid_amount, invalid_time_range, invalid_cliff,
  stream_not_found, exceeds_withdrawable, not_cancellable, already_finalized, math_overflow, paused,
}
use stellar_stream_hive_cont.Stream.Math.{streamed_amount, withdrawable_amount, compute_status}
use stellar_stream_hive_cont.Stream.Storage
use stellar_stream_hive_cont.Stream.Storage.{World, publish}
use stellar_stream_hive_cont.Stream.VaultClient

abbrev pub StreamAction : Type 0 → Type 0 → Type 0
StreamAction W A = Action (World W) StreamError A

module _ {W : Type 0} where
  unfoldable pub initialize : Env → Address → Address → StreamAction W (Unit {0})
  initialize env admin vault = do
    raise_if (← gets Storage.has_admin) already_initialized
    require_auth env admin
    modify (Storage.set_admin admin)
    modify (Storage.set_vault vault)

  unfoldable pub pause : Env → StreamAction W (Unit {0})
  pause env = do
    admin ← ok_or (← gets Storage.get_admin) not_initialized
    require_auth env admin
    modify (Storage.set_paused true)
    modify (publish (StreamEvent.pause admin))

  unfoldable pub unpause : Env → StreamAction W (Unit {0})
  unpause env = do
    admin ← ok_or (← gets Storage.get_admin) not_initialized
    require_auth env admin
    modify (Storage.set_paused false)
    modify (publish (StreamEvent.unpause admin))

  unfoldable pub transfer_admin : Env → Address → StreamAction W (Unit {0})
  transfer_admin env new_admin = do
    admin ← ok_or (← gets Storage.get_admin) not_initialized
    require_auth env admin
    require_auth_after env admin new_admin
    modify (Storage.set_admin new_admin)
    modify (publish (StreamEvent.admin_transfer admin new_admin))

  -- A call of the vault changes only the rest of the ledger.
  abbrev pub on_outside : (W → Option W) → StreamAction W (Unit {0})
  on_outside f =
      external λ w. elim (f w.outside) [ none ↦ none | some o ↦ some (record w { outside = o }) ]

module _ {W : Type 0} (host : Invoker W) where
  unfoldable pub create_stream :
      Env → Address → Address → Address → ℤ → ℕ → ℕ → ℕ → Bool → StreamAction W ℕ
  create_stream env sender recipient token total_amount start_ledger end_ledger cliff_ledger
        cancellable =
      do
        require_auth env sender
        raise_if (← gets Storage.is_paused) paused
        raise_if (leb_ℤ total_amount (pos 0)) invalid_amount
        raise_if (leb end_ledger start_ledger) invalid_time_range
        raise_if (ltb cliff_ledger start_ledger || ltb end_ledger cliff_ledger) invalid_cliff
        vault ← ok_or (← gets Storage.get_vault) not_initialized
        id ← Storage.next_stream_id
        let now = env.sequence
        let stream : Stream = record {
          id = id;
          sender = sender;
          recipient = recipient;
          token = token;
          total_amount = total_amount;
          withdrawn = pos 0;
          start_ledger = start_ledger;
          end_ledger = end_ledger;
          cliff_ledger = cliff_ledger;
          cancellable = cancellable;
          status = pending;
          created_at = now;
          cancelled_at_ledger = 0;
        }
        modify (Storage.set_stream stream)
        modify (Storage.add_sender_stream sender id)
        modify (Storage.add_recipient_stream recipient id)
        on_outside (VaultClient.deposit host env vault sender token total_amount id)
        modify (
            publish (
              StreamEvent.create id sender recipient token total_amount start_ledger end_ledger
                cliff_ledger cancellable))
        pure id

  unfoldable pub withdraw : Env → Address → ℕ → ℤ → StreamAction W (Unit {0})
  withdraw env recipient stream_id amount = do
    require_auth env recipient
    raise_if (leb_ℤ amount (pos 0)) invalid_amount
    found ← ok_or (← gets (Storage.get_stream stream_id)) stream_not_found
    raise_if (not (found.recipient == recipient)) unauthorized
    let now = env.sequence
    available ← lift (withdrawable_amount found now)
    raise_if (ltb_ℤ available amount) exceeds_withdrawable
    withdrawn ← ok_or (checked_add found.withdrawn amount) math_overflow
    let stream = record found { withdrawn = withdrawn }
    modify (Storage.set_stream stream)
    vault ← ok_or (← gets Storage.get_vault) not_initialized
    on_outside (
        VaultClient.release host env vault env.current_contract recipient stream.token amount
          stream_id)
    modify (publish (StreamEvent.withdraw stream_id recipient amount))

  unfoldable pub withdraw_max : Env → Address → ℕ → StreamAction W ℤ
  withdraw_max env recipient stream_id = do
    stream ← ok_or (← gets (Storage.get_stream stream_id)) stream_not_found
    raise_if (not (stream.recipient == recipient)) unauthorized
    let now = env.sequence
    available ← lift (withdrawable_amount stream now)
    choose (eqb_ℤ available (pos 0)) (pure (pos 0))
        (withdraw env recipient stream_id available >> pure available)

  unfoldable pub cancel_stream : Env → Address → ℕ → StreamAction W (Unit {0})
  cancel_stream env sender stream_id = do
    require_auth env sender
    found ← ok_or (← gets (Storage.get_stream stream_id)) stream_not_found
    raise_if (not (found.sender == sender)) unauthorized
    raise_if (not found.cancellable) not_cancellable
    let now = env.sequence
    let live_status = compute_status found now
    raise_if (same_status live_status cancelled || same_status live_status completed)
        already_finalized
    let stream = record found { status = cancelled; cancelled_at_ledger = now }
    streamed_now ← lift (streamed_amount stream now)
    remainder ← ok_or (checked_sub stream.total_amount streamed_now) math_overflow
    modify (Storage.set_stream stream)
    when (ltb_ℤ (pos 0) remainder) do
      vault ← ok_or (← gets Storage.get_vault) not_initialized
      on_outside (
          VaultClient.refund host env vault env.current_contract sender stream.token remainder
            stream_id)
    modify (publish (StreamEvent.cancel stream_id sender streamed_now remainder))
