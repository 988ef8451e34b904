-- ===== src/Socket/Gather/Examples.antt =====
-- Runs of the model of recvInWorker in src/net/TCPSocket.cpp, built with GATHER_RECV.
use hwnet.Prelude.{ℕ, zero, suc, ◌≡◌, refl, true, false, List, [], ◌∷◌, some, arith}
use hwnet.Socket.State.{Socket, RecvBuffer, Callbacks, new_socket, can_read}
use hwnet.Socket.Api.{Event, apply_all}
use hwnet.Socket.Worker.{Io, moved}
use hwnet.Socket.Gather.{Delivery, gather_in_worker}
use hwnet.Socket.Gather.Shares.{IsShared, capacity}
use hwnet.Socket.Gather.Bounds.{gather_in_worker-bounds, has_result}
use hwnet.Socket.Gather.Delivers.{left_as, gather_in_worker-IsShared}

abbrev buffer : ℕ → RecvBuffer
buffer n = record { id = n; len = 4 }

-- `n` buffers of 4 bytes.
unfoldable buffers : ℕ → List RecvBuffer
buffers zero = []
buffers (suc n) = buffer n ∷ buffers n

abbrev hearing : Callbacks
hearing = record { flush = false; error = false; close = false; high_water = false; recv = true }

-- A connection that can be read, with `n` buffers.
abbrev reading : ℕ → Socket
reading n = record (new_socket 0) { readable = true; callbacks = hearing; recv_list = buffers n }

abbrev io : Io
io = record { result = moved 6; errno = 0; now = 0; meanwhile = []; in_callback = [] }

abbrev quiet_events : ℕ → List Event
quiet_events n = []

-- One buffer too many.
gather_in_worker-bounds_example :
    has_result (gather_in_worker quiet_events io (reading 129)) ≡ false
unfolding can_read new_socket buffers capacity
gather_in_worker-bounds_example =
    gather_in_worker-bounds quiet_events io (reading 129) refl refl refl

-- 6 bytes for 3 buffers of 4.
gather_in_worker-IsShared_example :
    (d : Delivery) × (t : Socket) × (gather_in_worker quiet_events io (reading 3) ≡ some t)
    × IsShared quiet_events 6 (reading 3).recv_list (record (reading 3) { recv_list = [] }) d
    × (t ≡ left_as io d)
unfolding can_read new_socket buffers capacity apply_all
gather_in_worker-IsShared_example =
    gather_in_worker-IsShared quiet_events io (reading 3) 5 refl refl refl refl refl (omega arith)
