-- ===== src/Ports/Factory/Distinct.antt =====
-- foundation/crates/coinext-ports/src/context.rs: a factory does not give one id twice.
use coinext.Prelude.{ℕ, zero, suc, ◌+◌, ◌≤◌, ◌%◌, ◌^◌, ◌<◌, ◌≡◌, ◌≢◌, List, [], ◌∷◌, arith, All}
use coinext.Prelude.Text.{padded_inj}
use text.Mathlib.TextLemmas.{append_cancel_left}
use coinext.Model.Ids.{StrategyId, ClientOrderId}
use coinext.Ports.Factory.{OrderFactory, id_of, next_id}

id_of_inj : (s : StrategyId) (n m : ℕ) → n < 2 ^ 64 → m < 2 ^ 64 → id_of s n ≡ id_of s m → n ≡ m
id_of_inj s n m h k e =
    padded_inj 20 n m (omega arith) (omega arith)
      (append_cancel_left "-" _ _ (append_cancel_left s _ _ e))

-- The ids of so many orders in a row.
abbrev pub mint_ids : ℕ → OrderFactory → List ClientOrderId
mint_ids zero f = []
mint_ids (suc n) f = let (f', id) = next_id f in id ∷ mint_ids n f'

abbrev pub IsDistinct : List ClientOrderId → Type 0
IsDistinct [] = Unit
IsDistinct (id ∷ ids) = All (λ other. other ≢ id) ids × IsDistinct ids

stays : (n : ℕ) → n + 1 < 2 ^ 64 → (n + 1) % 2 ^ 64 ≡ n + 1
stays n h = omega (arith, h)

later_ids :
    (n : ℕ) (f : OrderFactory) (k : ℕ)
    → k ≤ f.seq
    → f.seq + n < 2 ^ 64
    → All (λ other. other ≢ id_of f.strategy_id k) (mint_ids n f)
unfolding next_id
later_ids zero f k h b = tt
later_ids (suc n) f k h b =
    let f' : OrderFactory = record f { seq = f.seq + 1 } in
    rw (stays f.seq (omega (arith, b))) (
      λ e. absurd (
          omega (
            arith,
            id_of_inj f.strategy_id (f.seq + 1) k (omega (arith, b)) (omega (arith, h, b)) e,
          )),
      later_ids n f' k (omega (arith, h)) (omega (arith, b)),
    )

-- As long as the counter stays below 2^64, the ids that a factory gives in a row are all different.
pub mint_ids-IsDistinct :
    (n : ℕ) (f : OrderFactory) → f.seq + n < 2 ^ 64 → IsDistinct (mint_ids n f)
unfolding next_id
mint_ids-IsDistinct zero f b = tt
mint_ids-IsDistinct (suc n) f b =
    let f' : OrderFactory = record f { seq = f.seq + 1 } in
    rw (stays f.seq (omega (arith, b))) (
      later_ids n f' (f.seq + 1) (omega arith) (omega (arith, b)),
      mint_ids-IsDistinct n f' (omega (arith, b)),
    )
