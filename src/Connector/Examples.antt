-- ===== src/Connector/Examples.antt =====
-- Runs of the model of src/net/TCPConnector.cpp.
use hwnet.Prelude.{◌≡◌, refl, true, some}
use hwnet.Connector.{
  Connector, Setup, new_connector, connect_with_timeout, connect_timeout, active_begin, active_end,
  run_task,
}
use hwnet.Connector.Once.{calls}

abbrev fine : Setup
fine = record { socket = some 5; connecting = true }

abbrev connecting : Connector
connecting = (connect_with_timeout fine true true 100 9 (new_connector true)).1

-- The timer fires between the two parts of OnActive.
abbrev raced : Connector
raced = run_task (active_end (connect_timeout 110 9 (active_begin 0 connecting)))

raced_once : calls raced.trace ≡ 1
unfolding new_connector connect_with_timeout connect_timeout active_begin active_end run_task
raced_once = refl
