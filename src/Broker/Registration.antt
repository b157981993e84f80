-- ===== src/Broker/Registration.antt =====
-- A registration request on its way through mbroker/mbroker.c: the client's bytes, the queue, a
-- worker and the handler.
use so_project.PcQueue.{PcQueue}
use so_project.PcQueue.Fifo
use so_project.Broker.Server.{Server}
