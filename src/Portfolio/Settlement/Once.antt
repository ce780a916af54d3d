-- ===== src/Portfolio/Settlement/Once.antt =====
-- A settlement on a position and its cash balance.
use pmrp.Common.Text.{Text, text_eq}
use pmrp.Portfolio.Types.{Settlement}
