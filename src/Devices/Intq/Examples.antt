-- ===== src/Devices/Intq/Examples.antt =====
-- A queue whose three bytes go around the end of the buffer.
use pintos_lab.Base.{◌+◌, ◌≡◌, refl, none, [], ◌∷◌}
use pintos_lab.Devices.Intq.{Intq}
use pintos_lab.Devices.Intq.Fifo.{contents, bytes_from}

abbrev queue : Intq
queue = record { not_full = none; not_empty = none; buf = λ i. 100 + i; head = 1; tail = 62 }

three_bytes : contents queue ≡ 162 ∷ 163 ∷ 100 ∷ []
unfolding bytes_from
three_bytes = refl
