-- ===== src/Config.antt =====
-- src/wireline/config.py: where the shared secret comes from.
use wireline.Base.{Option, none, some, [], ◌∷◌}
use wireline.Base.Bytes.{Bytes}
use wireline.Base.Text.{Text, codes}

abbrev pub dev_secret : Bytes
dev_secret = codes "dev-secret-not-for-real-use"

-- `value.encode("utf-8")` is the parameter `utf8`, and the environment's value an argument.
unfoldable pub from_environment : (Text → Bytes) → Option Text → Bytes
from_environment utf8 none = dev_secret
from_environment utf8 (some []) = dev_secret
from_environment utf8 (some (c ∷ cs)) = utf8 (c ∷ cs)

-- An empty text is as good as none.
unfoldable pub load_secret : (Text → Bytes) → Option Text → Option Text → Bytes
unfolding from_environment
load_secret utf8 none value = from_environment utf8 value
load_secret utf8 (some []) value = from_environment utf8 value
load_secret utf8 (some (c ∷ cs)) value = utf8 (c ∷ cs)
