-- ===== src/Client/Registry/Overrides.antt =====
-- The overrides of a transaction in packages/client/src/registry: an object, by its properties.
use logstore_archive.Base.{◌≡◌, refl, none}
use logstore_archive.Base.JsMap
use logstore_archive.Base.JsMap.{JsMap}

-- `const { gasPrice: _unusedGasPrice, ...mergedOverrides } = { ...a, ...b }`
unfoldable pub without_gas_price : {V : Type 0} → JsMap V → JsMap V → JsMap V
without_gas_price a b = JsMap.delete (JsMap.spread a b) "gasPrice"

-- Whatever the configuration and the caller say, no gas price is sent.
pub get-without_gas_price :
    {V : Type 0} (a b : JsMap V) → JsMap.get (without_gas_price a b) "gasPrice" ≡ none
unfolding without_gas_price
get-without_gas_price a b = rw (JsMap.get-delete (JsMap.spread a b) "gasPrice" "gasPrice") refl
