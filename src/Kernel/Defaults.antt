-- ===== src/Kernel/Defaults.antt =====
-- The kernel with the capability sets that it has by default.
use weft_end.Prelude.{◌≡◌, ◌≢◌, none, arith}
use weft_end.Kernel.Types.{CapInvokeMessage, allowed, CapKernel}
use weft_end.Kernel.Invoke.{handle_invoke}
use weft_end.Kernel.Deny.{allowed_capability}

-- Where no set of known and no set of disabled capabilities is given, nothing is allowed: each
-- capability that is known by default is disabled by default.
pub default_denies :
    (k : CapKernel) (msg : CapInvokeMessage)
    → k.opts.known_caps ≡ none
    → k.opts.disabled_caps ≡ none
    → (handle_invoke k msg).1 ≢ allowed
default_denies k msg known disabled permitted = ground (arith, allowed_capability k msg permitted)
