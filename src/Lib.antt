-- ===== src/Lib.antt =====
-- Ralph OS, a small operating system for x86-64 in Rust: its allocators, its loader of programs, its
-- scheduler, its network stack, and its BASIC.
--
-- The kernel runs one task at a time on identity-mapped memory, in the order that the scheduler
-- (src/scheduler.rs) chooses. The kernel's own data lies in the heap of src/allocator.rs.
-- Programs, their stacks and their heaps come from the program allocator (src/program_alloc.rs). A
-- program is started by src/api.rs: src/executable.rs finds its file in the table behind the
-- kernel, src/elf.rs copies it into program memory, the scheduler makes a task with a stack, and
-- the registry of src/executable.rs records what the task holds, so that all of it is given back
-- when the scheduler reaps the task. Frames reach the packet rings (src/net/packet.rs) from the
-- interrupt handler of the NE2000 card; the network task takes them out, hands ARP packets to
-- src/net/arp.rs and, through IPv4, segments to src/net/tcp.rs, and calls the TCP timers. TCP
-- sends through ipv4::send_packet, which may refuse a packet while it waits for ARP; headers carry
-- the sums of src/net/checksum.rs. Programs reach TCP by the socket calls. The BASIC of src/basic
-- reads lines with its lexer and parser, keeps them by number, and steps through them; its
-- expressions and statements call TCP directly, and SPAWN starts programs by src/api.rs.
--
-- Files:
--   Base             Boolean tests, lists with indices over the native numbers, case splits. Its
--                    children Int and Text have the integers, with the wrap of i64, and quoted texts.
--   FreeList         add_free_region, merge_free_regions and the walk of stats in
--                    src/program_alloc.rs. The chain of headers that starts at `head` is the sequence
--                    of its (address, size) pairs; nothing else refers to a node.
--   ProgramAlloc     ProgramAllocator of src/program_alloc.rs and the queries find_allocation and
--                    find_free_region. Calls of memvis are recorded in the state.
--   Scheduler        src/scheduler.rs up to the context switch, with TaskState and Task of src/task.rs
--                    (without name, context and stack). `prepare` and `choose` are the two parts of
--                    `schedule`; finished tasks' ids, which executable::unload_task is called for, are
--                    results.
--   Elf              src/elf.rs. A file is the list of its bytes, memory a function from addresses to
--                    bytes. The panic of the slice in `segment_data` is `none`, in load_elf, `load`
--                    and spawn_program too.
--   Executable       The registry of src/executable.rs, on the program allocator: what each task
--                    holds, task_alloc, task_free and unload_task; and the stack of Task::new in
--                    src/task.rs. Its child Loader has the table of embedded files and `load`.
--   System           Scheduler, registry and memory together: Scheduler::spawn, the unloading in
--                    reap_finished_tasks, and spawn_program, allocate_args_for_task, api_alloc and
--                    api_free of src/api.rs. `IsAccounted` says that every page of the program region
--                    is free or in exactly one of the blocks of the registry, or in a list of others.
--   Heap             src/allocator.rs. Headers of allocations are a function from addresses. Its child
--                    Tiles has the abstract heap, a sequence of free and used tiles; Majority has
--                    find_majority_owner.
--   Net/Bytes        Addresses, big-endian fields and word arithmetic.
--   Net/Checksum     src/net/checksum.rs.
--   Net/Env          The timer's value, our address, and what ipv4::send_packet answers: any function
--                    of the number of packets sent before. The packets are a log, the latest first.
--   Net/Packet       src/net/packet.rs, each operation one step. The caller's copies into the buffers
--                    are fill_rx and fill_tx.
--   Net/Arp          src/net/arp.rs; the configuration and the card's address are arguments, the
--                    frames given to ethernet::send_frame are results.
--   Net/Ethernet     src/net/ethernet.rs, and `Link`, what the stack keeps below TCP. What
--                    ne2000::send answers is any function of the number of frames sent before.
--   Net/Ipv4         src/net/ipv4.rs. `process_packet` answers the call that it makes.
--   Net/Icmp         src/net/icmp.rs.
--   Net/Stack        process_rx_packet of src/net/mod.rs; the call of tcp::process_packet is a result.
--   Net/Tcp/Ring     RingBuffer of src/net/tcp.rs.
--   Net/Tcp/Header   TcpHeader and build_segment; the checksum's place in send_segment_seq.
--   Net/Tcp/Tcb      TcpState, OooSegment and TcpControlBlock, sequence number comparison.
--   Net/Tcp/Send     send_segment_seq, send_segment, send_rst, process_ack, update_rtt, retransmit,
--                    send_pending_data.
--   Net/Tcp/Segment  process_segment with one function for each arm of its match, process_data and
--                    the segments that are put aside.
--   Net/Tcp/Table    CONNECTIONS and NEXT_PORT, process_packet, process_timers and the socket calls.
--                    `listen` of the source is start_listen, since `listen` is a state. A slot behind
--                    the last, where the source would panic, is read as an unused one.
--   Net/Tcp/Transfer Two connections: `Talks` is the life of one up to its FIN with what it puts on the
--                    wire, `Hears` the arrival of any of these packets at the other.
--   Net/Sockets      The network calls of src/api.rs on the table; an i32 is its 32 bits.
--   Basic/Lexer      src/basic/lexer.rs, on the characters that are left; Print writes tokens.
--   Basic/Syntax     The expressions, statements and errors of src/basic/parser.rs.
--   Basic/Parser     Parser of src/basic/parser.rs and its expressions; its child Statements has the
--                    statements and parse_line. A token that is looked at and taken is take_token.
--   Basic/Format     format_expr and format_statement of src/basic/interpreter.rs, which write in front
--                    of a given text. Its child Needs says which programs can be read back.
--   Basic/Value      src/basic/value.rs.
--   Basic/Eval       eval_expr and eval_binary_op of src/basic/interpreter.rs. `Host` is what they find
--                    around them.
--   Basic/Utf8, Basic/Text
--                    What the interpreter uses of the strings of the standard library: the bytes of a
--                    string, from_utf8_lossy, find, trim and the parsing of a number.
--   Basic/Interpreter
--                    execute_statement of src/basic/interpreter.rs, on `Machine`, the part of the
--                    interpreter that statements work on.
--   Basic/Program    Interpreter of src/basic/interpreter.rs: the lines, loading, steps, immediate
--                    commands and the listing. The program's BTreeMap is the list of its lines in order.
--
-- Machine integers are natural numbers with the wrap of the release build written out. The
-- exceptions are sums of a timer value and a timeout, which would pass 64 bits after some billions
-- of years of ticks, the counters of bytes in a ring, which are at most 1024, and, in the queries
-- about an address, the end of a block of the heap or the program region. A handler finds one timer
-- value for all of its reads. The i64 of BASIC are integers, and sums, differences and products
-- wrap as in a release build; a division that overflows panics. `println!`, the spin locks and two
-- assertions (that the registry of programs is initialised, and that the heap is asked for no more
-- than its own alignment) are left out. The `Host` of BASIC, with the heap's statistics and the start
-- of programs, is the same for all steps of a run.
--
-- Bounds: the loop that folds a 32-bit sum has fuel for two rounds, and the loop that delivers the
-- segments put aside has as much fuel as there are slots. The walk of a heap query has as much fuel
-- as the heap has bytes, and every tile has at least 16. The decimal digits of an integer token
-- have fuel for 19, enough below 2^63. The parser, for its recursion and for each of its loops, and
-- load_program have one unit more than the source has characters, and each round takes a character.
-- The search for the table of embedded files looks at the 262,143 places of the source. All other
-- loops recur on the list or the count that they walk.
--
-- Not modelled: the prompt of BASIC (src/basic/mod.rs and terminal.rs), which reads the serial
-- port, the loop of network_task, the telnet server, the memory view, and all that drives hardware
-- (interrupts, timer, NE2000, serial port, mouse, screen), where the code is port I/O and assembly.
pub mod Base
pub mod FreeList
pub mod ProgramAlloc
pub mod Scheduler
pub mod Elf
pub mod Executable
pub mod System
pub mod Heap
pub mod Net
pub mod Basic
