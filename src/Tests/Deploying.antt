-- ===== src/Tests/Deploying.antt =====
-- The admin sets the platform up, and hands it over and back.
use txtcel_program.Processor.Settings.Initialised.{Initialised}
