-- ===== src/Startup/Advertised.antt =====
-- What a started server tells about itself against what it signs.
use ethera_bundler.Base.Bytes.{Bytes}
