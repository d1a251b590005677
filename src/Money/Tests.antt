-- ===== src/Money/Tests.antt =====
-- Runs of the theorems on amounts.
use billing_api.Common.{◌≡◌, some, negsuc}
use billing_api.Money.{from, to_text}
use billing_api.Money.RoundTrip.{from-to_text}

-- -10.50000
from-to_text_example : from (to_text (negsuc 1049999)) ≡ some (negsuc 1049999)
from-to_text_example = from-to_text (negsuc 1049999)
