-- ===== src/Lib.antt =====
-- The core of A_test: the signalling protocol between nodes, the multicast protocol, the sockets
-- with the TCP server's connections, the processes that share memory, files, queues and semaphores,
-- and the hash table, string helpers, sorting and files.
--
-- Base, Memory and Words carry the other modules: the library's names and lists over native
-- numbers; C objects with reads, writes and copies that are a fault outside of the object, in the
-- monad Run; and machine words of the GCC x86-64 ABI as their bit patterns.
--
-- src/cmd_handle.c and include/cmd_handle.h: Cmd holds the structures, their layout in memory, the
-- globals and cmd_buf_init. Cmd/Rx is rx_cmd with rx_cmd_frag_combine and
-- rx_check_cmddata_complete, Cmd/Tx is tx_cmd and the functions that put a command into a buffer,
-- all with the names of the source. Cmd/Link runs the receiver on the sender's frames. The empty
-- handlers rx_hello, rx_dist_base and rx_dist_rpt are recorded as calls with the buffers that they
-- are given. The loop of rx_cmd runs on fuel, and `spinning` is the answer where it is used up:
-- there are frames on which the code does not return. For frames of whole commands, more fuel than
-- packets is enough. What rx_cmd returns after its loop is not defined by the code and left out.
--
-- src/protocol_socket.c from line 559 on and include/protocol_socket.h: Multi is the receiver
-- (check_p_hdr_til, multi_pdu_rx, multi_data_rx, multi_rx) and the sender (dist_init,
-- expire_handle, multi_tx) of the multicast protocol. What recvfrom delivers is an argument and
-- what sendto is given is a result; the messages head fail, len fail and tail fail are left out.
-- The loop of multi_data_rx has as many rounds as the datagram
-- has bytes and one more, which are always enough.
--
-- src/protocol_socket.c, lines 305 to 532: Tcp is the table of the TCP server's connections with
-- acceptTcpConnet, send_tcpserver, recv_tcpserver and rw_tcpserver. What accept, select, write and
-- read answer is an argument of each call, and what is written, printed and closed is a result.
--
-- src/c_STL.c: Hash has JSHash, harsh_table_harsh_string and bkdrHash; HashTable has InitHashTable,
-- Insert, Get and Dorp. A chain of nodes is a list of keys and values, since the table alone owns
-- its nodes; allocation does not fail. The table of one hundred chains is the list hash_node, and
-- PrintHashTable and clearHashTable are the chains shown and the nodes freed; currentIndex is the 32
-- bits of an int.
--
-- System is the operating system: a function that makes calls is a Prog, which is given what each
-- call answers, a failure included, and keeps the calls with their answers, newest first. The modules
-- Socket, SubProc, Mapped, Segment, SemSet, Pipe and Logging stand on it.
--
-- src/protocol_socket.c, lines 8 to 299: Socket is the set-up of UDP, multicast and TCP sockets with
-- the sending and receiving of single datagrams, Socket/Client the TCP client, and Socket/Frame the
-- test message and address (lines 534 to 556). An address of a call is a number, and the name of the
-- multicast group is left out.
--
-- src/process_interactive.c: Exchange has producer and customer over shared memory, and Semaphore
-- the two processes of sem_PV_handler, as step relations in which their statements interleave; what
-- semop does to the semaphore's value is a parameter with its documented behaviour as hypotheses.
-- Segment has the calls that both functions make before and after their loops, and SemSet the
-- functions for semaphores with the failures that are not tested. Queue is the message queue, over
-- calls of the system that are a parameter, and Queue/Together its two processes at the same time;
-- Mapped the file that is mapped into memory; Pipe the pipe; SubProc the table of sub-processes,
-- with route_main of src/route_algo.c. The loops of the receiver, of mmap_read and of
-- proc_wait_handle run on fuel, `runs_on` being the result where it is used up: with the
-- lines, the polls or the children counted, more than these is enough.
-- The endless loop of sem_PV_handler is run for a number of rounds.
--
-- src/collectData.c: Collect has the thread that runs `collect` and the loop of thread_collect as
-- interleaved statements over the buffer that they share, in which count-- is a load and a store,
-- Collect/Runs the runs that a theorem needs, and Collect/Thread the start and the join of the
-- thread.
--
-- src/logging.c: Logging has the functions that open, write and close log files, with a fault where
-- fwrite is given NULL, and Clock the text of now_time. What localtime answers is an argument.
--
-- src/common.c: Sort is the bubble sort of sort_arr, for an array of any length. Conf is update_conf
-- on the bytes of a file, with one round more than bytes, since each round reads a byte at least and
-- goes back over less than it has read. Strings has head_tail_cut_char, cut_char, myfgets and
-- timeval2us; Message the texts in buffers, customPrint and str_combine; Bits has setbit, testbitmain,
-- test_abc and the macros CONVERT_16 and CONVERT_32 of include/common.h. Shell has the functions that
-- call the system, systemRet, process_task and to_file_init with msg_printf, and driver_main of
-- src/driver_module.c. Signals has main_dump with dump_backtrace and myfunc3, and sig_handler of
-- src/process_interactive.c, as handlers under a sequence of signals that are delivered.
--
-- Not modelled: arr2init, struct_init_0, color, use_sscanf, get_2arr and test_sig_segv of
-- src/common.c, which print constants or fault on purpose; the functions of src/route_algo.c whose
-- bodies are empty; main of src/main.c, which prints a line; the rest of src/driver_module.c,
-- src/kernel_list.c and src/kernelDemo.c, which are commented out; and the vendored headers.
pub mod Base
pub mod Memory
pub mod Words
pub mod Cmd
pub mod Multi
pub mod HashTable
pub mod Hash
pub mod Exchange
pub mod Semaphore
pub mod Tcp
pub mod Sort
pub mod System
pub mod Socket
pub mod SubProc
pub mod Collect
pub mod Queue
pub mod Mapped
pub mod Segment
pub mod SemSet
pub mod Pipe
pub mod Logging
pub mod Conf
pub mod Strings
pub mod Clock
pub mod Signals
pub mod Bits
pub mod Message
pub mod Shell
