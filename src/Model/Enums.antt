-- ===== src/Model/Enums.antt =====
-- foundation/crates/coinext-model/src/enums.rs. An enum's derived equality compares discriminants.
use coinext.Prelude.{ℕ, Bool, true, false, nat_beq}
use coinext.Prelude.Int.{ℤ, pos, negsuc}
use coinext.Core.Decimal.{Decimals, max}

pub data AssetClass : Type 0 where
  spot perp future equity option : AssetClass

pub data OptionRight : Type 0 where
  call put : OptionRight

pub data OrderSide : Type 0 where
  buy sell : OrderSide

unfoldable pub sign : OrderSide → ℤ
sign buy = pos 1
sign sell = negsuc 0

unfoldable pub opposite : OrderSide → OrderSide
opposite buy = sell
opposite sell = buy

abbrev pub is_buy : OrderSide → Bool
is_buy buy = true
is_buy sell = false

pub data OrderType : Type 0 where
  market limit stop_market stop_limit market_if_touched trailing_stop_market : OrderType

pub data TimeInForce : Type 0 where
  gtc ioc fok gtd day : TimeInForce

pub data OrderStatus : Type 0 where
  initialized denied submitted accepted pending_update pending_cancel : OrderStatus
  partially_filled filled canceled expired rejected : OrderStatus

abbrev pub discriminant : OrderStatus → ℕ
discriminant initialized = 0
discriminant denied = 1
discriminant submitted = 2
discriminant accepted = 3
discriminant pending_update = 4
discriminant pending_cancel = 5
discriminant partially_filled = 6
discriminant filled = 7
discriminant canceled = 8
discriminant expired = 9
discriminant rejected = 10

abbrev pub status_beq : OrderStatus → OrderStatus → Bool
status_beq s t = nat_beq (discriminant s) (discriminant t)

abbrev pub is_terminal : OrderStatus → Bool
is_terminal denied = true
is_terminal filled = true
is_terminal canceled = true
is_terminal expired = true
is_terminal rejected = true
is_terminal _ = false

pub data LiquiditySide : Type 0 where
  maker taker : LiquiditySide

pub data PositionSide : Type 0 where
  long short flat : PositionSide

pub data BookAction : Type 0 where
  add update delete clear : BookAction

module _ ⦃d : Decimals⦄ where
  unfoldable pub intrinsic : OptionRight → d.Decimal → d.Decimal → d.Decimal
  intrinsic call s strike = max (d.sub s strike) d.zero
  intrinsic put s strike = max (d.sub strike s) d.zero
