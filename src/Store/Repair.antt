-- ===== src/Store/Repair.antt =====
-- A damaged content of the artifact store is restored from its second copy.
use weft_end.Reasons.{checkpoint_eq_or_reason, is_empty}
