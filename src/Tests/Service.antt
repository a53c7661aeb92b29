-- ===== src/Tests/Service.antt =====
-- The wait for pouch's service.
use d2p_migrator.Prelude.{[]}
use d2p_migrator.Pouch.Service.{wait_pouch_alive}
use d2p_migrator.Pouch.Service.Wait.{Ends, wait_pouch_alive-Ends}
use d2p_migrator.Tests.Samples.{host}

wait_pouch_alive-Ends_example : Ends host 3 [] (wait_pouch_alive host [])
wait_pouch_alive-Ends_example = wait_pouch_alive-Ends host (λ t p. cc) []
