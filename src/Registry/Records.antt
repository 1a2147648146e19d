-- ===== src/Registry/Records.antt =====
-- What the registry answers about one stream after it has been registered or updated.
use stellar_stream_hive_cont.Base.{
  ℕ, ◌≡◌, refl, Bool, Option, ◌∙◌, ap, true, false, some, ◌==◌, inl, inr, arith, Bool-cases,
  if◌then◌else◌,
}
use stellar_stream_hive_cont.Base.Int.{ℤ}
use stellar_stream_hive_cont.Base.Dict.{lookup, insert, lookup-insert}
use stellar_stream_hive_cont.Host.Results
use stellar_stream_hive_cont.Host.{Env, Address, ok}
use stellar_stream_hive_cont.Registry.Types.{StreamStatus, StreamRecord, stream_not_found}
use stellar_stream_hive_cont.Registry.Storage.{World}
use stellar_stream_hive_cont.Registry.Contract.{register_stream, update_stream, get_stream_record}
use stellar_stream_hive_cont.Registry.Effects.{new_record, register_stream_ok, update_stream_known}

ok_or-if :
    (b : Bool) (r : StreamRecord) (o : Option StreamRecord)
    → Results.ok_or (if b then some r else o) stream_not_found
      ≡ (if b then ok r else Results.ok_or o stream_not_found)
ok_or-if true r o = refl
ok_or-if false r o = refl

-- What is answered after one record has been written.
record-insert :
    (i id : ℕ) (r : StreamRecord) (w w' : World)
    → w'.records ≡ insert id r w.records
    → get_stream_record i w' ≡ (if i == id then ok r else get_stream_record i w)
record-insert i id r w w' e =
    ap (λ o. Results.ok_or o stream_not_found) (ap (lookup i) e ∙ lookup-insert i id r w.records)
    ∙ ok_or-if (i == id) r (lookup i w.records)

-- After a registration that goes through, the record of the stream is what was registered, with
-- nothing withdrawn and the status active; after an update of the same stream that then goes
-- through, it is that with the reported amount and status. The records of all other streams stay.
pub get_stream_record-register_update :
    (env : Env) (id i : ℕ) (sender recipient token : Address) (amount withdrawn : ℤ)
    (status : StreamStatus) (w v u : World)
    → register_stream env id sender recipient token amount w ≡ ok (tt, v)
    → update_stream env id withdrawn status v ≡ ok (tt, u)
    → let r = new_record id sender recipient token amount in
      (get_stream_record i v ≡ (if i == id then ok r else get_stream_record i w))
      × (get_stream_record i u ≡ (
          if i == id
          then ok (record r { withdrawn = withdrawn; status = status })
          else get_stream_record i w))
get_stream_record-register_update env id i sender recipient token amount withdrawn status w v u reg
      up =
    let r = new_record id sender recipient token amount in
    let d = register_stream_ok env id sender recipient token amount w v reg in
    let there : lookup id v.records ≡ some r =
      ap (lookup id) d.stored ∙ lookup-insert id id r w.records ∙ ground arith in
    let (stored, _) = update_stream_known env id withdrawn status r v u there refl up in
    let first = record-insert i id r w v d.stored in
    (
      first,
      record-insert i id _ v u stored ∙ (elim (Bool-cases (i == id)) [
        | inl here ↦ rw here refl
        | inr other ↦ rw other (first ∙ rw other refl)
      ]),
    )
