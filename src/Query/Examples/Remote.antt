-- ===== src/Query/Examples/Remote.antt =====
-- The theorem on filters of other services at a concrete batch.
use backend_pkg.Common.{
  ℕ, zero, suc, ◌≡◌, refl, true, false, List, [], ◌∷◌, codes, none, some, is_some,
}
use backend_pkg.Query.CrossService.{
  CrossServiceFilter, apply_cross_service_batch, narrow_by_all, result_at,
}
use backend_pkg.Query.CrossService.Orders.{Filters, settled, is_in, apply_cross_service_batch_order}
use backend_pkg.Query.Examples.{lib, users}

abbrev by_driver : CrossServiceFilter
by_driver = record { local_field = codes "driver_id"; ask = some (codes "7" ∷ [], false) }

abbrev by_broker : CrossServiceFilter
by_broker = record { local_field = codes "broker_id"; ask = some ([], true) }

-- One answer, a filter that is missing and an error.
abbrev batch : Filters
batch = some by_driver ∷ none ∷ some by_broker ∷ []

abbrev order : List ℕ
order = 2 ∷ 0 ∷ []

all_end : (i : ℕ) → is_some (result_at batch i) ≡ true → is_in order i ≡ true
unfolding result_at
all_end zero e = refl
all_end (suc zero) e = absurd (cc)
all_end (suc (suc zero)) e = refl
all_end (suc (suc (suc i))) e = absurd (cc)

apply_cross_service_batch_order_example :
    apply_cross_service_batch lib order users batch
    ≡ (narrow_by_all lib users (settled batch), settled batch)
apply_cross_service_batch_order_example =
    apply_cross_service_batch_order lib order users batch all_end
