-- ===== src/Server/Traces.antt =====
-- A connection of `WirelineServer` (src/wireline/server.py) against the histories of its session.
use wireline.Base.{List, ◌++◌}
use wireline.Base.Bytes.{Bytes}
use wireline.Base.Text.{Text}
use wireline.Errors.{Result, ok, raise}

-- Writes one after the other: the first that raises is the last.
abbrev chain :
    List Bytes × Result (Unit {0}) → List Bytes × Result (Unit {0}) → List Bytes × Result (Unit {0})
chain (ws, raise e) o = (ws, raise e)
chain (ws, ok _) (vs, r) = (ws ++ vs, r)
