-- ===== src/Examples/Sockets.antt =====
-- The filter of the raw socket on a machine that runs it, the split connection, and the status watcher.
use tetrapod.Base.{
  ℕ, zero, suc, ◌+◌, ◌*◌, ◌%◌, ◌^◌, ◌≡◌, refl, sym, true, false, List, [], ◌∷◌, ◌++◌, some, drop,
  replicate, if◌then◌else◌, arith, ℕ_discrete, take,
}
use tetrapod.Base.Bytes.{Bytes}
use tetrapod.Hijack.Bpf.{
  Condition, Instruction, load_absolute, load_indirect, load_mem_shift, load_constant_a,
  load_constant_x, alu_op_x_add, tax, jump, jump_if, ret_constant, Machine, read, or_reject, holds,
  generate_instructions,
}
use tetrapod.Hijack.Bpf.Accepts.{is_wanted, has, generate_instructions_accept}
use tetrapod.Pkg.Splitconn.{Packet, Conn, add, read_from}
use tetrapod.Pkg.Splitconn.Routing.{
  queue_of, routed, dispatch_all, Fits, pending, goes_to, queue_of-dispatch_all, read_from_next,
}
use tetrapod.Disco.Packet.{EncryptedDiscoPacket, ping_message, marshal}
use tetrapod.Tetraengine.Sockets.{splitter, has_udp_header, marshal_passes_filter}
use tetrapod.Disco.Watch.{
  Event, goes_on, sets_status, watch, step, run, LastTold, NoRepeat, notify_status_settles,
}
use tetrapod.Examples.Packets.{here, there, alice}

-- The instructions from the one at an index on.
exec : List Instruction → ℕ → ℕ → ℕ → Bytes → ℕ
exec [] skip a x p = 0
exec (i ∷ rest) (suc skip) a x p = exec rest skip a x p
exec (load_absolute off size ∷ rest) zero a x p =
    or_reject (read p off size) (λ v. exec rest 0 v x p)
exec (load_indirect off size ∷ rest) zero a x p =
    or_reject (read p (x + off) size) (λ v. exec rest 0 v x p)
exec (load_mem_shift off ∷ rest) zero a x p =
    or_reject (read p off 1) (λ v. exec rest 0 a (4 * (v % 16)) p)
exec (load_constant_a v ∷ rest) zero a x p = exec rest 0 v x p
exec (load_constant_x v ∷ rest) zero a x p = exec rest 0 a v p
exec (alu_op_x_add ∷ rest) zero a x p = exec rest 0 ((a + x) % 2 ^ 32) x p
exec (tax ∷ rest) zero a x p = exec rest 0 a a p
exec (jump n ∷ rest) zero a x p = exec rest n a x p
exec (jump_if c v t f ∷ rest) zero a x p =
    if holds c a v then exec rest t a x p else exec rest f a x p
exec (ret_constant v ∷ rest) zero a x p = v

exec-drop :
    (n : ℕ) (rest : List Instruction) (a x : ℕ) (p : Bytes)
    → exec rest n a x p ≡ exec (drop n rest) 0 a x p
unfolding exec
exec-drop zero rest a x p = refl
exec-drop (suc n) [] a x p = refl
exec-drop (suc n) (i ∷ rest) a x p = exec-drop n rest a x p

exec-jump_if :
    (c : Condition) (v t f : ℕ) (rest : List Instruction) (a x : ℕ) (p : Bytes)
    → exec (jump_if c v t f ∷ rest) 0 a x p
      ≡ (if holds c a v then exec (drop t rest) 0 a x p else exec (drop f rest) 0 a x p)
unfolding exec
exec-jump_if c v t f rest a x p =
    rw (sym (exec-drop t rest a x p)) (rw (sym (exec-drop f rest a x p)) refl)

abbrev toy_machine : Machine
unfolding exec
toy_machine = record {
  run = λ program a x p. exec program 0 a x p;
  run_load_absolute = λ off size rest a x p. refl;
  run_load_indirect = λ off size rest a x p. refl;
  run_load_mem_shift = λ off rest a x p. refl;
  run_load_constant_a = λ v rest a x p. refl;
  run_load_constant_x = λ v rest a x p. refl;
  run_add = λ rest a x p. refl;
  run_tax = λ rest a x p. refl;
  run_jump = λ n rest a x p. exec-drop n rest a x p;
  run_jump_if = exec-jump_if;
  run_ret_constant = λ v rest a x p. refl;
}

-- A ping to port 4000 over IPv4, with a header of 20 bytes.
abbrev ip4_frame : Bytes
ip4_frame =
    replicate 12 0
    ++ 8 ∷ 0 ∷ 0x45 ∷ replicate 8 0
    ++ 17 ∷ replicate 10 0
    ++ 0 ∷ 0 ∷ 15 ∷ 160 ∷ replicate 4 0
    ++ 128 ∷ 1 ∷ 2 ∷ []

ip4_frame_wanted : is_wanted 4000 ip4_frame ≡ true
unfolding read
ip4_frame_wanted = refl

other_port : is_wanted 4001 ip4_frame ≡ false
unfolding read
other_port = refl

generate_instructions_accept_example :
    toy_machine.run (generate_instructions 4000) 0 0 ip4_frame
    ≡ (if is_wanted 4000 ip4_frame then 2 ^ 18 else 0)
generate_instructions_accept_example = generate_instructions_accept toy_machine 4000 ip4_frame

abbrev envelope : EncryptedDiscoPacket
envelope = record {
  header = ping_message;
  src_public_disco_key = alice;
  encrypted_payload = replicate 40 7;
  endpoint = there;
}

abbrev wire : Bytes
wire = ping_message ∷ alice ++ replicate 40 7

-- The ping in a frame, over IPv4 with a header of 24 bytes.
abbrev wire_frame : Bytes
wire_frame =
    replicate 12 0
    ++ 8 ∷ 0 ∷ 0x46 ∷ replicate 8 0
    ++ 17 ∷ replicate 14 0
    ++ 0 ∷ 0 ∷ 15 ∷ 160 ∷ replicate 4 0
    ++ wire

ping_is_written : marshal envelope ≡ some wire
unfolding marshal
ping_is_written = refl

wire_in_udp : has_udp_header 38 wire_frame ≡ true
unfolding read
wire_in_udp = refl

wire_port : has wire_frame (38 + 2) 2 4000 ≡ true
unfolding read
wire_port = refl

marshal_passes_filter_example :
    (toy_machine.run (generate_instructions 4000) 0 0 wire_frame ≡ 2 ^ 18)
    × (goes_to 0 splitter (record { b = wire; addr = here }) ≡ true)
    × (goes_to 1 splitter (record { b = wire; addr = here }) ≡ false)
marshal_passes_filter_example =
    marshal_passes_filter toy_machine envelope wire here 4000 38 wire_frame ping_is_written
      wire_in_udp wire_port refl

abbrev disco_packet : Packet
disco_packet = record { b = 128 ∷ 5 ∷ []; addr = here }

abbrev stun_packet : Packet
stun_packet = record { b = 1 ∷ 1 ∷ []; addr = there }

splitter-Fits : Fits splitter
unfolding splitter add
splitter-Fits = ground arith

queue_of-dispatch_all_example :
    (queue_of 1 (dispatch_all (disco_packet ∷ stun_packet ∷ []) splitter)
      ≡ take 5 (queue_of 1 splitter ++ routed 1 splitter (disco_packet ∷ stun_packet ∷ [])))
    × Fits (dispatch_all (disco_packet ∷ stun_packet ∷ []) splitter)
queue_of-dispatch_all_example =
    queue_of-dispatch_all 1 (disco_packet ∷ stun_packet ∷ []) splitter splitter-Fits

stun_pending : pending 1 splitter (disco_packet ∷ stun_packet ∷ []) ≡ stun_packet ∷ []
unfolding splitter add routed goes_to
stun_pending = refl

read_from_next_example :
    (cs' : List Conn) × (ds' : List Packet) × (read_from 1 1500
        (disco_packet ∷ stun_packet ∷ [])
        splitter
      ≡ some (take 1500 stun_packet.b, stun_packet.addr, cs', ds'))
    × (pending 1 cs' ds' ≡ [])
read_from_next_example =
    read_from_next 1 1500 (disco_packet ∷ stun_packet ∷ []) splitter stun_packet [] stun_pending

abbrev changes : List (Event ℕ)
changes = goes_on ∷ sets_status 4 ∷ sets_status 5 ∷ []

still_open : (run ℕ_discrete changes (watch 3)).closed ≡ false
unfolding run step
still_open = refl

notify_status_settles_example :
    let w = run ℕ_discrete changes (watch 3) in
    LastTold (step ℕ_discrete w goes_on).told w.value × NoRepeat (step ℕ_discrete w goes_on).told
notify_status_settles_example = notify_status_settles ℕ_discrete 3 changes still_open
