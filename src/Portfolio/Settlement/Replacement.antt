-- ===== src/Portfolio/Settlement/Replacement.antt =====
-- A settlement and its correction, one after the other.
use pmrp.Common.Text.{Text, text_eq}
use pmrp.Portfolio.Types.{Settlement}
