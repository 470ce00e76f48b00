-- ===== src/Lib.antt =====
-- Vely, the framework's run-time library in C: the parts that keep state or transform data.
--
-- Strings are the lists of their bytes, without the terminator; a read past the list is a read of the
-- terminator. Machine integers are native numbers, with the wrap-around written out where the code
-- can reach it. Allocation succeeds, since the code exits where it fails.
--
-- Utf8 models utf8.c: vely_encode_utf8, vely_decode_utf8 and the two surrogate routines, one function
-- each, with the code's branches in the code's order.
--
-- Hash models hash.c: the buckets are lists of entries, an entry has the number of its allocation for
-- its address, and the traversal pointer is such an address. create_hash, delete_hash, find_hash,
-- add_hash, del_hash_entry, resize_hash, rewind_hash and next_hash are the functions of those names
-- behind the prefix vely_. The loop of resize_hash has the number of entries and one more for fuel,
-- and the loop of next_hash the number of buckets that are left; both are enough, as the theorems on
-- them show. Hash/Valid states the invariant and Hash/Place the abstract map from texts to entries.
--
-- Memory models velymem.c: the block of pointers is a list of entries, and the heap is a function from
-- addresses to the index that stands at the beginning of a block. malloc, realloc, free, mem_set_process
-- and done are the functions of those names behind _vely_ or vely_, and add_mem, set_free, vmset and
-- get_memory their parts; reg_file is vely_reg_file of velyrtc.c. The address that the C library returns
-- is an argument. Memory/Free has the list of freed entries, Memory/Valid the invariant.
--
-- Codec models the web and URL encodings of vely_encode_base in velyrtc.c and vely_decode in velyrt.c,
-- and vely_bin2hex and vely_hex2bin in velyrt.c.
--
-- Fifo models vely_store_init, vely_store, vely_retrieve, vely_rewind and vely_purge of velyrtc.c: the
-- array is a list with its length beside it.
--
-- Number models vely_num2str of velyrt.c, with 64 rounds for its loop: a number of 64 bits has no more
-- digits in base 2, and fewer in another base.
--
-- Tree models tree.c: Tree has the nodes, the rotations, insertion and deletion, Tree/Links the linked
-- list through the nodes, Tree/Search the searches and Tree/Api the routines behind vv_tree_ and the
-- comparison of keys. A height is a number of seven bits. Tree/Spec has the list of keys and data that a
-- tree stands for, Tree/Heights and Tree/Shape the balance, Tree/Refine and Tree/Valid the refinement,
-- Tree/Searches what the searches find and Tree/Level the check of the balance.
--
-- Json models json.c, at first its strings and numbers: json_to_utf8 is vely_json_to_utf8 where it
-- decodes and pass_string where it does not, utf8_to_json is vely_utf8_to_json and json_num is
-- vely_json_num. A loop runs over the bytes that are left, with a count of those it has already passed. Json/Grammar has the
-- numbers of RFC 7159. Json/Name is vely_json_fullname; its loops over the digits of an index have 20
-- rounds, one more than an index of 63 bits has digits.
--
-- Json/Parse is the parser, vely_json_new: the static variables are a record, a nested call of the
-- function is a call of enter and run, and one round of its loop is step, with a function for each group of
-- cases. The loop has one more than the length of the document for fuel, which is enough whatever the
-- document is. An access outside of the list of names, or through a name that is NULL, is a result of its
-- own. The list of names and the byte kept in nulled, as the parse before has left them, are arguments, and
-- so is the node handler. Json/Parse/Document has the documents as data, Json/Name the names that their
-- leaves are to have, and Json/Parse/Ends and Json/Parse/Refine the theorems.
--
-- Json/Nodes is the document that the program holds: vely_set_json, vely_add_json_hash, vely_read_json,
-- vely_begin_json, vely_next_json, vely_del_json and the room for the nodes in vely_add_json. It fills a table
-- of Hash, with the number of a node for its address, and parse_json runs the parser in between.
--
-- Request models vely_get_input_param and vely_set_input of velyrt.c, with the two rounds of the
-- search. Request/Params has where a name stands, Request/Unique the map from names to values.
--
-- Cookies models vely_check_set_cookie, vely_set_cookie, vely_find_cookie and vely_delete_cookie of
-- velyrt.c, on the bytes of the cookies. A reported error is a result. Cookies/Text is about where
-- the parts of a cookie begin and end, Cookies/Slots about its place in the list.
--
-- Trim models vely_trim and vely_trim_ptr of velyrtc.c; Trim/Ends has the text without the spaces at
-- its ends.
--
-- Not modelled: the rest of velyrt.c and velyrtc.c; the code generator in v1.c, which writes C text; the
-- program manager and the glue over other libraries, which are calls of the operating system and of those
-- libraries.
--
-- Base holds what the parts share.
pub mod Base
pub mod Utf8
pub mod Hash
pub mod Memory
pub mod Codec
pub mod Fifo
pub mod Number
pub mod Tree
pub mod Json
pub mod Request
pub mod Cookies
pub mod Trim
