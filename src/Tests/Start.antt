-- ===== src/Tests/Start.antt =====
-- The theorems about the genesis block and the calendar at concrete inputs.
use better_call_chain.Prelude.{◌≡◌, ◌+◌, refl, ◌⊎◌, [], ◌∷◌, ok, Bool, true}
use better_call_chain.Prelude.Words.{pos}
use better_call_chain.Core.Types.{Bytes}
use better_call_chain.Core.Merkle.{zeros}
use better_call_chain.Core.Memory.{new}
use better_call_chain.Node.State.{memory}
use better_call_chain.Node.Genesis.{GenesisConfig, apply_genesis}
use better_call_chain.Node.Genesis.Seeding.{apply_genesis-once}
use better_call_chain.Node.Clock.{Date, epoch_to_ymd, format_ts}
use better_call_chain.Node.Clock.Calendar.{IsDay, days_before, epoch_to_ymd-IsDay}
use better_call_chain.Tests.Toy.{toy}
use better_call_chain.Tests.Data.{alice}

epoch_to_ymd-IsDay_example : IsDay (days_before 1970 + 20587) (epoch_to_ymd 20587)
epoch_to_ymd-IsDay_example = epoch_to_ymd-IsDay 20587

format_ts_example :
    format_ts 1709210096007
    ≡ b'2' ∷ b'0' ∷ b'2' ∷ b'4' ∷ b'-' ∷ b'0' ∷ b'2' ∷ b'-' ∷ b'2' ∷ b'9' ∷ b'T' ∷ b'1' ∷ b'2'
      ∷ b':' ∷ b'3' ∷ b'4' ∷ b':' ∷ b'5' ∷ b'6' ∷ b'.' ∷ b'0' ∷ b'0' ∷ b'7' ∷ b'Z' ∷ []
unfolding format_ts better_call_chain.Node.Clock.padded better_call_chain.Node.Clock.digits
    epoch_to_ymd better_call_chain.Node.Clock.year_loop better_call_chain.Node.Clock.leap
    better_call_chain.Node.Clock.month_loop
format_ts_example = refl

abbrev cfg : GenesisConfig
cfg = record {
  timestamp = pos 1000;
  validators =
      record { address = alice.text; pubkey = toy.hex_encode (1 ∷ zeros 31); stake = 5 } ∷ [];
  accounts = record { address = alice.text; balance = 10 } ∷ [];
}

abbrev key_ok : Bytes → Bool
key_ok key = true

apply_genesis-once_example :
    let t = (apply_genesis toy key_ok (memory toy) cfg new).0 in
    (t ≡ new) ⊎ (apply_genesis toy key_ok (memory toy) cfg t ≡ (t, ok tt))
apply_genesis-once_example = apply_genesis-once toy key_ok cfg new
