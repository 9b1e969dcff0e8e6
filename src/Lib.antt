-- ===== src/Lib.antt =====
-- H.264 over RTP: programs that split an H.264 byte stream into NAL units, send the units as RTP
-- packets and put the stream together again, with the queues and the socket functions that they
-- use.
--
-- How the parts interact. A program reads a unit from a file (copy_nal_from_file), hands it to
-- h264nal2rtp_send, which makes one packet or a series of FU-A fragments and passes each to a
-- send, and the receiver calls decode_rtp2h264 on each packet and so writes a file with start
-- codes. The queues stand between producers and consumers of blocks, and the socket functions
-- below the transfers.
--
-- Which file models what (paths from the repository's root):
--   Base: the shared names, tests, lists, memory blocks and integers.
--   Rtp/Header: the bit fields of common/h264tortp.h, with the bytes they are laid out in.
--   Rtp/Send: h264nal2rtp_send of client/udp/client.c. `Sender` holds ts_current and seq_num and
--     the state of what the program does with a packet; the send itself is a parameter.
--     SENDBUFFER is cleared for each packet, so a packet starts as zeroes.
--   Rtp/Decode: decode_rtp2h264 of sample/test_rtp2h264.c. The file is the list of the bytes
--     written.
--   Rtp/Fragments, Rtp/RoundTrip, Rtp/Numbering: what is sent is received, and how packets are
--     numbered.
--   Nal/Copy, Nal/Escaped: copy_nal_from_file of sample/send_h264file_rtp.c (and of
--     sample/test_tcp_send_nal.c and sample/test_rtp2h264.c). The file is the list of bytes left
--     in it.
--   Nal/StartCode, Nal/Parse: find_nal_start_code, print_nal_type, find_nal_type and
--     parse_h264_file of file_parse/file_parse.c. A buffer is a list; a pointer is an offset,
--     NULL is none.
--   Nal/Reader: the other copy_nal_from_file, of file_parse/file_parse.c.
--   Tools/SendFile, Tools/Pipeline: the main loop of sample/send_h264file_rtp.c, and the way of
--     a whole file from one program to the other. The buffer for a unit has a size, and a longer
--     unit is undefined behaviour (none).
--   Tools/ClientList: send_data_to_client_list and the sending to it in
--     sample/send_h264file_rtp.c. A client carries what the system answers to its sends.
--     Tools/ClientList/Same: its packetiser beside that of client/udp/client.c.
--     Tools/ClientList/Start: main of the program. Rtp/Related: the packetiser does the same
--     whatever its packets are handed to.
--   Tools/TcpSender: the same on a TCP connection, sample/test_tcp_send_nal.c. Tools/Related:
--     the main loop does the same whatever its packets are handed to.
--   Tools/LinkList: the list of clients of sample/llist.c over a heap of nodes; none is
--     undefined behaviour. Tools/LinkList/Add: add_client_list of sample/send_h264file_rtp.c.
--   Programs/Splitter: how the main loops of client/udp/client.c and client/multicast/client.c
--     cut a file at its start codes. Programs/Receiver: the loops of server/udp/server.c and
--     server/multicast/server.c. The buffer is a list with what lies behind it. Programs/Mains:
--     main of the four programs, from the call of socket on. Programs/Receiver/Sets: the
--     parameter sets of a buffer, by its offsets. Programs/Relay: a file from the multicast
--     client to the multicast server.
--   Server: server/tcp/tcp_server.cpp with the records of server/include/server.h. A round of
--     the loop takes what select, accept, recv and send say, and gives the descriptors that it
--     closed.
--   Queue/Array, Queue/Pointer: data_structure/queue_linear_arrary.c and queue_linear_pointer.c;
--     `front` and `rear` are unsigned and wrap at 2^32.
--   Queue/Sequeue: the ring of common/queue.c, with its locks as Booleans; none is undefined
--     behaviour or a wait for ever. Queue/Sequeue/Race: the same operations with one step of the
--     other side between. Queue/Sequeue/Threads: any interleaving of EnDataQueue and
--     DeDataQueue, a step for each access to the counters and each copy of a block.
--   Queue/Linked: data_structure/queue_list.c over a heap of nodes, with `node_size` by its 32
--     bits.
--   Queue/Menu: common/queue_test.c and the three test programs of data_structure/, one loop
--     over the commands that are typed, for four queues.
--   Net/Os: what select, send and recv answer. Net/Tcp: the transfers of common/tcpsocket.c.
--     Net/Udp: those of common/udpsocket.c. Net/Buffer: buffer sizes in common/commonsocket.c.
--     Net/Socket: making, connecting and listening in common/commonsocket.c and
--     common/tcpsocket.c. Net/Accept: accepting in common/tcpsocket.c. Net/Address: ports and
--     addresses in common/commonsocket.c. Net/Options: the rest of that file.
--   Tests: runs of the code on small inputs.
--
-- Fuel. The loops that are not structural run on fuel, and a theorem shows that it is enough:
-- one more than the length of the file for the loop that sends units (each unit takes at least a
-- start code), one more than the number of bytes for parse_h264_file, one more than the size for
-- comm_tcp_exRead and comm_tcp_write_packet (a round moves at least a byte), and one more than
-- the wanted size for comm_increaseBufferTo (the size falls in each round). The loops of
-- Programs over the units of a buffer of n bytes have n + 1 (a unit takes at least 4 bytes),
-- those over the reads of a file one more than its length, and the loops of Tools/LinkList the
-- number of clients, or one more. For the packets of UDP, where an empty datagram or a write of
-- 0 bytes goes round again, `none` is the end of the fuel and nothing is claimed.
--
-- Assumed. The operating system is a script of answers that may be anything; a script that ends
-- is a call that still waits. Lengths that the C code keeps in an int are natural numbers here.
-- `sendto` of the multicast client may refuse any datagram.
--
-- Not modelled: printing, the arguments and files of the test programs in sample/, and the
-- reading of buffer sizes in the programs of server/.
pub mod Base
pub mod Rtp
pub mod Nal
pub mod Tools
pub mod Queue
pub mod Net
pub mod Server
pub mod Programs
mod Tests
