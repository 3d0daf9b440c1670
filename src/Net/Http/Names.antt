-- ===== src/Net/Http/Names.antt =====
-- Under which names http_get_header of ProperNet/src/httparse.h finds a value.
