-- ===== src/Tests/Reports.antt =====
-- The line-based client's announcement of direct paths on concrete input.
use openmesh_messenger.Base.{◌≡◌}
use openmesh_messenger.Cli.ChatApp.Reports.{report_direct_paths_idempotent}
use openmesh_messenger.Cli.ChatApp.Run.{report_direct_paths}
use openmesh_messenger.Tests.Cli.{app}
use openmesh_messenger.Tests.Disk.{toy_disk}
use openmesh_messenger.Tests.Engine.{random, delivers}
use openmesh_messenger.Tests.Paths.{direct_host}
use openmesh_messenger.Tests.Toy.{toy}

report_direct_paths_idempotent_example :
    let a' = report_direct_paths toy toy_disk random delivers (record app { host = direct_host }) in
    report_direct_paths toy toy_disk random delivers a' ≡ a'
report_direct_paths_idempotent_example =
    report_direct_paths_idempotent toy toy_disk random delivers (record app { host = direct_host })
